-- ===== src/Responses/Refused.antt =====
-- Which dicts src/awr/responses/validate.py refuses for their keys, and the texts of the types.
use agent_work_relay.Prelude.{
  ◌≡◌, ◌↔◌, ◌⊎◌, inl, inr, refl, sym, subst, String, Bool, true, false, ◌&&◌, ◌==◌, some, List, [],
  ◌∷◌, err, contains, arith, eq_iff, Bool-cases,
}
use agent_work_relay.Host.{Host, dict, Fields, end, field, has_key, all_keys}
use agent_work_relay.Lifecycle.Responses.{ResponseType, receipt_accepted}
use agent_work_relay.Responses.Checks.{packet_error}
use agent_work_relay.Responses.Payload.{type_value, type_from_value}
use agent_work_relay.Responses.Packet.{
  common_required, allowed_top, has_all, read_packet, parse_fields, parse_response_packet,
}

all_keys-has_key :
    (p : String → Bool) (key : String) (d : Fields)
    → all_keys p d ≡ true
    → has_key key d ≡ true
    → p key ≡ true
unfolding all_keys has_key
all_keys-has_key p key end a b = cc
all_keys-has_key p key (field k v rest) a b = elim (Bool-cases (k == key)) [
  | inl same ↦
      let k_is : k ≡ key = ground (arith, eq_iff k key) in
      subst (λ x. p x ≡ true) k_is (ground arith)
  | inr other ↦ all_keys-has_key p key rest (ground arith) (ground arith)
]

has_all-contains :
    (key : String) (keys : List String) (d : Fields)
    → has_all keys d ≡ true
    → contains key keys ≡ true
    → has_key key d ≡ true
unfolding has_all contains
has_all-contains key [] d a b = cc
has_all-contains key (k ∷ keys) d a b = elim (Bool-cases (key == k)) [
  | inl same ↦
      let k_is : k ≡ key = ground (arith, eq_iff key k) in
      subst (λ x. has_key x d ≡ true) k_is (ground arith)
  | inr other ↦ has_all-contains key keys d (ground arith) (ground arith)
]

bad_keys-refused :
    (h : Host) (d : Fields)
    → (all_keys (λ k. contains k allowed_top) d && has_all common_required d) ≡ false
    → parse_response_packet h (dict d) ≡ err packet_error
unfolding parse_response_packet parse_fields read_packet
bad_keys-refused h d e = ground arith

-- A dict with a key outside the fifteen of a packet, or without one of the seven that are required, is
-- refused with ResponsePacketError, whatever its values are.
pub wrong_keys-refused :
    (h : Host) (d : Fields) (key : String)
    → ((has_key key d ≡ true) × (contains key allowed_top ≡ false))
      ⊎ ((has_key key d ≡ false) × (contains key common_required ≡ true))
    → parse_response_packet h (dict d) ≡ err packet_error
wrong_keys-refused h d key (inl (there, unknown)) =
    let implied = all_keys-has_key (λ k. contains k allowed_top) key d in
    bad_keys-refused h d (ground arith)
wrong_keys-refused h d key (inr (missing, needed)) =
    let implied = has_all-contains key common_required d in bad_keys-refused h d (ground arith)

from_type_value : (t : ResponseType) → type_from_value (type_value t) ≡ some t
unfolding type_from_value type_value
from_type_value receipt_accepted = refl
from_type_value _ = refl

from_value_sound : (s : String) (t : ResponseType) → type_from_value s ≡ some t → s ≡ type_value t
unfolding type_from_value type_value
from_value_sound s t e = ground (
  arith,
  eq_iff s "receipt.accepted",
  eq_iff s "plan.completed",
  eq_iff s "question.blocked",
  eq_iff s "execution.acknowledged",
  eq_iff s "execution.progress",
  eq_iff s "execution.completed",
  eq_iff s "execution.failed",
  eq_iff s "review.completed",
)

-- A text reads as a response type exactly when it is the text of that type.
pub type_from_value_iff :
    (s : String) (t : ResponseType) → (type_from_value s ≡ some t) ↔ (s ≡ type_value t)
type_from_value_iff s t =
    (from_value_sound s t, λ e. subst (λ x. type_from_value x ≡ some t) (sym e) (from_type_value t))
