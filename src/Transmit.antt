-- ===== src/Transmit.antt =====
-- mdns-proto/src/transmit.rs: a datagram to send, and what became of it by address family. The families are v4
-- and v6; an array of two is a pair.
use hick.Prelude.{
  ℕ, Bool, true, false, not, ◌&&◌, ◌||◌, List, [], ◌∷◌, Option, none, some, leb, if◌then◌else◌,
}

pub data FamilyAttempt : Type 0 where
  accepted : (at : ℕ) → FamilyAttempt
  refused : (permanent : Bool) → FamilyAttempt
  gate_shut no_socket not_addressed would_block : FamilyAttempt

pub data FamilyDelivery : Type 0 where
  unobligated delivered missed : FamilyDelivery

unfoldable pub delivery : FamilyAttempt → FamilyDelivery
delivery (accepted at) = delivered
delivery (refused permanent) = missed
delivery gate_shut = missed
delivery would_block = missed
delivery no_socket = unobligated
delivery not_addressed = unobligated

unfoldable pub accepted_at : FamilyAttempt → Option ℕ
accepted_at (accepted at) = some at
accepted_at _ = none

pub record TransmitDelivery : Type 0 where
  pub v4 : FamilyDelivery
  pub v6 : FamilyDelivery

unfoldable pub project : FamilyAttempt → FamilyAttempt → TransmitDelivery
unfolding delivery
project v4 v6 = record { v4 = delivery v4; v6 = delivery v6 }

abbrev pub is_delivered : FamilyDelivery → Bool
is_delivered delivered = true
is_delivered _ = false

abbrev pub is_missed : FamilyDelivery → Bool
is_missed missed = true
is_missed _ = false

unfoldable pub any_delivered : TransmitDelivery → Bool
any_delivered d = is_delivered d.v4 || is_delivered d.v6

unfoldable pub any_missed : TransmitDelivery → Bool
any_missed d = is_missed d.v4 || is_missed d.v6

unfoldable pub all_delivered : TransmitDelivery → Bool
unfolding any_delivered any_missed
all_delivered d = any_delivered d && not (any_missed d)

unfoldable pub delivered_on : TransmitDelivery → Bool × Bool
delivered_on d = (is_delivered d.v4, is_delivered d.v6)

-- The earliest acceptance.
unfoldable pub anchor : FamilyAttempt → FamilyAttempt → ℕ → ℕ
unfolding accepted_at
anchor v4 v6 fallback = elim (accepted_at v4) [
  | some a ↦ elim (accepted_at v6) [ some b ↦ if leb a b then a else b | none ↦ a ]
  | none ↦ elim (accepted_at v6) [ some b ↦ b | none ↦ fallback ]
]

-- One family's arm of `undeliverable`: no answer where it returns, and otherwise whether the refusal
-- is permanent.
abbrev pub permanently : FamilyAttempt → Option Bool
permanently (refused true) = some true
permanently no_socket = some false
permanently not_addressed = some false
permanently _ = none

unfoldable pub undeliverable : FamilyAttempt → FamilyAttempt → Bool
undeliverable v4 v6 = elim (permanently v4) [
  | none ↦ false
  | some p4 ↦ elim (permanently v6) [ none ↦ false | some p6 ↦ p4 || p6 ]
]

pub record TransmitConfirm : Type 0 where
  pub any_delivered : Bool
  pub retire_producer : Bool

abbrev pub nothing_confirmed : TransmitConfirm
nothing_confirmed = record { any_delivered = false; retire_producer = false }

pub data TransmitObligation : Type 0 where
  sustained one_shot : TransmitObligation

-- An address by its octets.
pub record SocketAddr : Type 0 where
  pub ip : List ℕ
  pub port : ℕ

pub record Transmit : Type 0 where
  pub dst : SocketAddr
  pub src_ip : Option (List ℕ)
  pub size : ℕ
  pub obligation : TransmitObligation
  pub min_family_gap : ℕ

abbrev pub multicast_dst : SocketAddr
multicast_dst = record { ip = 224 ∷ 0 ∷ 0 ∷ 251 ∷ []; port = 5353 }
