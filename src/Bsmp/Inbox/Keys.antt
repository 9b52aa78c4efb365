-- ===== src/Bsmp/Inbox/Keys.antt =====
-- `decKey` of internal/bsmp/inbox.go: a partial bundle is known by its sender and its bundle ID.
use meshbbs.Common.{
  ℕ, ◌≡◌, ◌↔◌, Bool, true, ◌&&◌, arith, nat_beq, bytes_beq, bytes_beq_iff, Comparable,
}
use meshbbs.Identity.{NodeId}

pub record DecKey : Type 0 where
  pub from : NodeId
  pub bundle_id : ℕ

abbrev pub dec_key_beq : DecKey → DecKey → Bool
dec_key_beq a b = bytes_beq a.from b.from && nat_beq a.bundle_id b.bundle_id

pub dec_key_beq_iff : (a b : DecKey) → (dec_key_beq a b ≡ true) ↔ (a ≡ b)
dec_key_beq_iff a b = ground (arith, bytes_beq_iff a.from b.from)

instance abbrev pub dec_key_eq : Comparable DecKey
dec_key_eq = record { same = dec_key_beq; same_iff = dec_key_beq_iff }
