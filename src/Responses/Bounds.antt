-- ===== src/Responses/Bounds.antt =====
-- The limits that src/awr/responses/validate.py puts on what a packet holds.
use agent_work_relay.Prelude.{
  ℕ, ◌≤◌, ◌≡◌, refl, ap, subst, String, true, false, ◌==◌, Option, none, some, List, [], ◌∷◌,
  length, ok, leb, leb→le, is_empty, utf8_length, bare_digest, contains, arith, bind-eq-ok,
  require-eq-ok, reject-eq-ok, ok-injective,
}
use agent_work_relay.Host.{
  Host, Value, null, str, list, dict, Items, nil, item, get, has_key, all_keys, to_text,
}
use agent_work_relay.Lifecycle.Responses.{EvidenceRef}
use agent_work_relay.Responses.Checks.{
  packet_error, max_string_bytes, max_evidence_refs, require_string, optional_string, is_digest,
  digest,
}
use agent_work_relay.Responses.Payload.{count}
use agent_work_relay.Responses.Evidence.{
  evidence_keys, index, known, to_integer, purpose_from_value, evidence_of, each_evidence,
  parse_evidence,
}

-- The text is not empty and no longer than the limit in UTF-8.
abbrev pub IsText : ℕ → String → Type 0
IsText limit s = ((s == "") ≡ false) × (utf8_length s ≤ limit)

abbrev pub IsOptionalText : Option String → Type 0
IsOptionalText none = Unit {0}
IsOptionalText (some s) = IsText max_string_bytes s

pub require_string_sound :
    (v : Value) (limit : ℕ) {s : String}
    → require_string v limit ≡ ok s
    → (v ≡ str s) × IsText limit s
unfolding require_string
require_string_sound (str t) limit e =
    let (a, e1) = reject-eq-ok (is_empty t) packet_error _ e in
    let (b, e2) = require-eq-ok (leb (utf8_length t) limit) packet_error _ e1 in
    let same = ok-injective e2 in (ap str same, subst (λ x. IsText limit x) same (a, leb→le _ _ b))
require_string_sound _ limit e = cc

pub optional_string_sound :
    (v : Value) {o : Option String} → optional_string v ≡ ok o → IsOptionalText o
unfolding optional_string
optional_string_sound null {o} e = subst IsOptionalText (ok-injective e) tt
optional_string_sound v {o} e =
    let (s, e1, e2) = bind-eq-ok (require_string v max_string_bytes) _ e in
    subst IsOptionalText (ok-injective e2) (require_string_sound v max_string_bytes e1).1

pub digest_sound : (v : Value) {s : String} → digest v ≡ ok s → is_digest s ≡ true
unfolding digest
digest_sound v e =
    let (text, e1, e2) = bind-eq-ok (require_string v max_string_bytes) _ e in
    let (c, e3) = require-eq-ok (is_digest (bare_digest text)) packet_error _ e2 in
    subst (λ x. is_digest x ≡ true) (ok-injective e3) c

pub record IsEvidence (r : EvidenceRef) : Type 0 where
  pub its_id : IsText max_string_bytes r.artifact_id
  pub its_sha256 : is_digest r.sha256 ≡ true
  pub its_media_type : IsOptionalText r.detected_media_type
  pub its_name : IsText max_string_bytes r.safe_filename

pub evidence_of_sound :
    (h : Host) (v : Value) {r : EvidenceRef} → evidence_of h v ≡ ok r → IsEvidence r
unfolding evidence_of
evidence_of_sound h (dict d) e =
    let (_, e1) = require-eq-ok (all_keys (λ k. contains k evidence_keys) d) packet_error _ e in
    let (_, e2) = require-eq-ok (has_key "purpose" d) packet_error _ e1 in
    let (_, _, e3) = bind-eq-ok (known (purpose_from_value (to_text h (get d "purpose")))) _ e2 in
    let (raw_id, _, e4) = bind-eq-ok (index d "artifact_id") _ e3 in
    let (_, a, e5) = bind-eq-ok (require_string raw_id max_string_bytes) _ e4 in
    let (raw_length, _, e6) = bind-eq-ok (index d "byte_length") _ e5 in
    let (_, _, e7) = bind-eq-ok (to_integer (h.to_int raw_length)) _ e6 in
    let (raw_sha256, _, e8) = bind-eq-ok (index d "sha256") _ e7 in
    let (_, b, e9) = bind-eq-ok (digest raw_sha256) _ e8 in
    let (_, c, e10) = bind-eq-ok (optional_string (get d "detected_media_type")) _ e9 in
    let (raw_name, _, e11) = bind-eq-ok (index d "safe_filename") _ e10 in
    let (_, f, e12) = bind-eq-ok (require_string raw_name max_string_bytes) _ e11 in
    subst IsEvidence (ok-injective e12) (record {
      its_id = (require_string_sound _ _ a).1;
      its_sha256 = digest_sound _ b;
      its_media_type = optional_string_sound _ c;
      its_name = (require_string_sound _ _ f).1;
    })
evidence_of_sound h _ e = cc

abbrev pub AllEvidence : List EvidenceRef → Type 0
AllEvidence [] = Unit {0}
AllEvidence (r ∷ rs) = IsEvidence r × AllEvidence rs

each_evidence_sound :
    (h : Host) (items : Items) {rs : List EvidenceRef}
    → each_evidence h items ≡ ok rs
    → AllEvidence rs × (length rs ≡ count items)
unfolding each_evidence
each_evidence_sound h nil e =
    subst (λ rs. AllEvidence rs × (length rs ≡ 0)) (ok-injective e) (tt, refl)
each_evidence_sound h (item v rest) e =
    let (r, a, e1) = bind-eq-ok (evidence_of h v) _ e in
    let (rs, b, e2) = bind-eq-ok (each_evidence h rest) _ e1 in
    let (all, many) = each_evidence_sound h rest b in
    subst (λ rs. AllEvidence rs × (length rs ≡ count (item v rest))) (ok-injective e2)
      ((evidence_of_sound h v a, all), omega arith)

pub parse_evidence_sound :
    (h : Host) (v : Value) {rs : List EvidenceRef}
    → parse_evidence h v ≡ ok rs
    → AllEvidence rs × (length rs ≤ max_evidence_refs)
unfolding parse_evidence
parse_evidence_sound h (list items) e =
    let (few, e1) = require-eq-ok (leb (count items) max_evidence_refs) packet_error _ e in
    let (all, many) = each_evidence_sound h items e1 in
    let at_most = leb→le (count items) max_evidence_refs few in (all, omega arith)
parse_evidence_sound h _ e = cc
