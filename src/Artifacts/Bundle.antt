-- ===== src/Artifacts/Bundle.antt =====
-- src/awr/artifacts/bundle.py: work bundles. The clean bodies are what the body store gives by artifact
-- and digest: the digest and the length of the bytes that are there.
pub mod Sound
pub mod Resolved
use agent_work_relay.Prelude.{
  ℕ, ◌+◌, String, Bool, true, false, not, ◌&&◌, ◌||◌, Option, none, some, List, [], ◌∷◌, ◌==◌,
  Result, ok, err, ◌>>=◌, ◌>>◌, require, reject, leb, ltb, nat_eq, length, contains, utf8_length,
  text_ltb, starts_with, concat, join, is_empty, truthy, if◌then◌else◌,
}
use agent_work_relay.Host.{Host, int, to_text}
use agent_work_relay.Artifacts.Status.{ArtifactStatus, clean, status_is, terminal, value}
use agent_work_relay.Artifacts.Names.{safe_filename}
use agent_work_relay.Artifacts.Records
use agent_work_relay.Artifacts.Records.{ArtifactPurpose, Artifact, ArtifactSecurityReceipt}
use agent_work_relay.Artifacts.Verdicts.{status_from_security_receipt, verdict_is_clean}
use agent_work_relay.Artifacts.Rows.{find_artifact, find_receipt}
use agent_work_relay.Artifacts.Tables.{Tables}
use agent_work_relay.Artifacts.Store.Declare.{purpose_value}

pub record ArtifactReference : Type 0 where
  pub artifact_id : String
  pub purpose : ArtifactPurpose
  pub byte_length : ℕ
  pub sha256 : String
  pub detected_media_type : Option String
  pub safe_filename : String

pub record WorkBundle : Type 0 where
  pub markdown : String
  pub references : List ArtifactReference
  pub bundle_sha256 : String

-- The messages of BundleValidationError
pub data BundleError : Type 0 where
  markdown_too_large duplicate_ids too_many missing foreign rejected pending : BundleError
  tampered expired bundle_too_large : BundleError

pub record Body : Type 0 where
  pub digest : String
  pub size : ℕ

pub record Bodies : Type 0 where
  pub open_clean : String → String → Option Body
  -- `str.isprintable` of one character
  pub is_printable : ℕ → Bool

pub record BundleLimits : Type 0 where
  pub markdown_max_bytes : ℕ
  pub max_artifacts : ℕ
  pub max_bundle_bytes : ℕ

-- A value, or the error of its absence
abbrev pub or_raise : {A : Type 0} → Option A → BundleError → Result BundleError A
or_raise none e = err e
or_raise (some a) e = ok a

abbrev pub agrees : Option ArtifactReference → ArtifactReference → Bool
agrees none r = true
agrees (some x) r = x.sha256 == r.sha256 && nat_eq x.byte_length r.byte_length

abbrev pub reference_of : Bodies → Artifact → ℕ → String → ArtifactReference
reference_of b a n digest = record {
  artifact_id = a.artifact_id;
  purpose = a.purpose;
  byte_length = n;
  sha256 = digest;
  detected_media_type = a.detected_media_type;
  safe_filename = safe_filename b.is_printable a.original_filename;
}

unfoldable pub clean_reference :
    Bodies → Tables → Artifact → Option ArtifactReference → Result BundleError ArtifactReference
clean_reference b t a expected = do
  digest ← or_raise a.sha256 tampered
  reject (is_empty digest) tampered
  n ← or_raise a.byte_length tampered
  receipt ← or_raise (find_receipt a.artifact_id digest t.security) pending
  require (verdict_is_clean receipt.verdict) rejected
  require (status_is (status_from_security_receipt receipt) clean) rejected
  require (receipt.scanned_sha256 == digest) tampered
  body ← or_raise (b.open_clean a.artifact_id digest) expired
  require (body.digest == digest && nat_eq body.size n) tampered
  require (agrees expected (reference_of b a n digest)) tampered
  ok (reference_of b a n digest)

by_status :
    Bodies → Tables → Artifact → Option ArtifactReference → Result BundleError ArtifactReference
by_status b t a expected =
    if status_is a.status clean
    then clean_reference b t a expected
    else if terminal a.status || starts_with (value a.status) "REJECTED_"
    then err rejected
    else err pending

unfoldable pub attachable_reference :
    Bodies
    → Tables
    → String
    → Option ArtifactReference
    → String
    → Result BundleError ArtifactReference
unfolding by_status
attachable_reference b t sender expected artifact_id = do
  a ← or_raise (find_artifact artifact_id t.artifacts) missing
  require (a.owner == sender) foreign
  by_status b t a expected

unfoldable pub attach_all :
    Bodies → Tables → String → List String → Result BundleError (List ArtifactReference)
attach_all b t sender [] = ok []
attach_all b t sender (k ∷ rest) = do
  r ← attachable_reference b t sender none k
  rs ← attach_all b t sender rest
  ok (r ∷ rs)

-- `(item.purpose.value, item.artifact_id)` of one reference before that of the other
abbrev before : ArtifactReference → ArtifactReference → Bool
before x y =
    text_ltb (purpose_value x.purpose) (purpose_value y.purpose)
    || (purpose_value x.purpose == purpose_value y.purpose && text_ltb x.artifact_id y.artifact_id)

unfoldable pub place : ArtifactReference → List ArtifactReference → List ArtifactReference
place r [] = r ∷ []
place r (x ∷ rest) = if before x r then x ∷ place r rest else r ∷ x ∷ rest

-- `_ordered`: a stable sort
unfoldable pub ordered : List ArtifactReference → List ArtifactReference
ordered [] = []
ordered (r ∷ rest) = place r (ordered rest)

part_of : ArtifactReference → String
part_of r = join ":" (r.artifact_id ∷ r.sha256 ∷ purpose_value r.purpose ∷ [])

parts_of : List ArtifactReference → List String
parts_of [] = []
parts_of (r ∷ rest) = part_of r ∷ parts_of rest

unfoldable pub fingerprint_bundle : Host → String → List ArtifactReference → String
unfolding part_of parts_of
fingerprint_bundle h markdown references =
    let sorted = ordered references in
    let parts = h.sha256 markdown ∷ to_text h (int (length sorted)) ∷ parts_of sorted in
    h.sha256 (join "|" parts)

-- `len(ids) == len(set(ids))`
unfoldable pub is_distinct : List String → Bool
is_distinct [] = true
is_distinct (k ∷ rest) = not (contains k rest) && is_distinct rest

unfoldable pub total_length : List ArtifactReference → ℕ
total_length [] = 0
total_length (r ∷ rest) = r.byte_length + total_length rest

abbrev pub bundle_of : Host → String → List ArtifactReference → WorkBundle
bundle_of h markdown sorted = record {
  markdown = markdown;
  references = sorted;
  bundle_sha256 = fingerprint_bundle h markdown sorted;
}

unfoldable pub resolve_bundle :
    Host
    → BundleLimits
    → Bodies
    → Tables
    → String
    → String
    → List String
    → Result BundleError WorkBundle
resolve_bundle h l b t sender markdown artifact_ids = do
  reject (ltb l.markdown_max_bytes (utf8_length markdown)) markdown_too_large
  require (is_distinct artifact_ids) duplicate_ids
  reject (ltb l.max_artifacts (length artifact_ids)) too_many
  references ← attach_all b t sender artifact_ids
  reject (ltb l.max_bundle_bytes (utf8_length markdown + total_length references)) bundle_too_large
  ok (bundle_of h markdown (ordered references))

unfoldable pub verify_all :
    Bodies → Tables → String → List ArtifactReference → Result BundleError (Unit {0})
verify_all b t sender [] = ok tt
verify_all b t sender (r ∷ rest) = do
  again ← attachable_reference b t sender (some r) r.artifact_id
  verify_all b t sender rest

unfoldable pub verify_bundle_generation :
    Bodies → Tables → String → WorkBundle → Result BundleError (Unit {0})
verify_bundle_generation b t sender bundle = verify_all b t sender bundle.references
