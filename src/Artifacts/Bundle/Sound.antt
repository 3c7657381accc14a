-- ===== src/Artifacts/Bundle/Sound.antt =====
-- What `resolve_bundle` of src/awr/artifacts/bundle.py promises.
use agent_work_relay.Prelude.{
  ℕ, String, true, false, ◌≡◌, sym, ap, ◌∙◌, Option, none, some, List, [], ◌∷◌, ◌==◌, ◌&&◌, ok,
  arith, bind-eq-ok, require-eq-ok, reject-eq-ok, ok-injective, eq_refl, nat_eq, nat_eq_refl,
  is_empty,
}
use agent_work_relay.Artifacts.Status.{clean, status_is}
use agent_work_relay.Artifacts.Records.{Artifact, ArtifactSecurityReceipt}
use agent_work_relay.Artifacts.Verdicts.{status_from_security_receipt, verdict_is_clean}
use agent_work_relay.Artifacts.Rows.{find_artifact, find_receipt, find_artifact-key}
use agent_work_relay.Artifacts.Tables.{Tables}
use agent_work_relay.Artifacts.Bundle.{
  ArtifactReference, BundleError, Body, Bodies, clean_reference, attachable_reference, reference_of,
  or_raise,
}

-- The facts that `_clean_reference` has tested when it returns a reference.
pub record Tested (b : Bodies) (t : Tables) (a : Artifact) (r : ArtifactReference) : Type 0 where
  pub digest : String
  pub size : ℕ
  pub receipt : ArtifactSecurityReceipt
  pub body : Body
  pub has_digest : a.sha256 ≡ some digest
  pub has_size : a.byte_length ≡ some size
  pub not_empty : is_empty digest ≡ false
  pub scanned : find_receipt a.artifact_id digest t.security ≡ some receipt
  pub verdict : verdict_is_clean receipt.verdict ≡ true
  pub bound : status_is (status_from_security_receipt receipt) clean ≡ true
  pub of_digest : (receipt.scanned_sha256 == digest) ≡ true
  pub opened : b.open_clean a.artifact_id digest ≡ some body
  pub hashed : (body.digest == digest) && nat_eq body.size size ≡ true
  pub made : r ≡ reference_of b a size digest

or_raise-eq-ok :
    {A : Type 0} (o : Option A) (e : BundleError) {a : A} → or_raise o e ≡ ok a → o ≡ some a
or_raise-eq-ok none e h = cc
or_raise-eq-ok (some x) e h = ap some (ok-injective h)

clean_reference_inv :
    (b : Bodies) (t : Tables) (a : Artifact) (expected : Option ArtifactReference)
    (r : ArtifactReference)
    → clean_reference b t a expected ≡ ok r
    → Tested b t a r
unfolding clean_reference
clean_reference_inv b t a expected r e =
    let (digest, has_digest, e1) = bind-eq-ok _ _ e in
    let (not_empty, e2) = reject-eq-ok _ _ _ e1 in
    let (n, has_size, e3) = bind-eq-ok _ _ e2 in
    let (receipt, scanned, e4) = bind-eq-ok _ _ e3 in
    let (verdict, e5) = require-eq-ok _ _ _ e4 in
    let (bound, e6) = require-eq-ok _ _ _ e5 in
    let (of_digest, e7) = require-eq-ok _ _ _ e6 in
    let (body, opened, e8) = bind-eq-ok _ _ e7 in
    let (hashed, e9) = require-eq-ok _ _ _ e8 in
    let (expects, e10) = require-eq-ok _ _ _ e9 in
    record {
      digest = digest;
      size = n;
      receipt = receipt;
      body = body;
      has_digest = or_raise-eq-ok a.sha256 _ has_digest;
      has_size = or_raise-eq-ok a.byte_length _ has_size;
      not_empty = not_empty;
      scanned = or_raise-eq-ok (find_receipt a.artifact_id digest t.security) _ scanned;
      verdict = verdict;
      bound = bound;
      of_digest = of_digest;
      opened = or_raise-eq-ok (b.open_clean a.artifact_id digest) _ opened;
      hashed = hashed;
      made = sym (ok-injective e10);
    }

-- A reference stands for an artifact of the sender that is CLEAN, has a CLEAN receipt for its digest,
-- and has a clean body with that digest and that length.
pub record IsBacked (b : Bodies) (t : Tables) (sender : String) (r : ArtifactReference)
    : Type 0 where
  pub artifact : Artifact
  pub stored : find_artifact r.artifact_id t.artifacts ≡ some artifact
  pub owned : (artifact.owner == sender) ≡ true
  pub is_clean : status_is artifact.status clean ≡ true
  pub tested : Tested b t artifact r

pub attachable_reference_inv :
    (b : Bodies) (t : Tables) (sender k : String) (expected : Option ArtifactReference)
    (r : ArtifactReference)
    → attachable_reference b t sender expected k ≡ ok r
    → IsBacked b t sender r
unfolding attachable_reference
attachable_reference_inv b t sender k expected r e =
    let (a, found, e1) = bind-eq-ok _ _ e in
    let (owned, e2) = require-eq-ok _ _ _ e1 in
    let is_clean : status_is a.status clean ≡ true = ground arith in
    let given : clean_reference b t a expected ≡ ok r = ground arith in
    let tested = clean_reference_inv b t a expected r given in
    let stored = or_raise-eq-ok (find_artifact k t.artifacts) _ found in
    let key = find_artifact-key k t.artifacts a stored in
    record {
      artifact = a;
      stored =
          ap (λ x. find_artifact x t.artifacts) (ap (λ x. x.artifact_id) tested.made ∙ key)
          ∙ stored;
      owned = owned;
      is_clean = is_clean;
      tested = tested;
    }

-- A backed reference is given again when it is expected.
pub attachable_again :
    (b : Bodies) (t : Tables) (sender : String) (r : ArtifactReference)
    → IsBacked b t sender r
    → attachable_reference b t sender (some r) r.artifact_id ≡ ok r
unfolding attachable_reference clean_reference
attachable_again b t sender r i =
    let stored = i.stored in
    let owned = i.owned in
    let is_clean = i.is_clean in
    let has_digest = i.tested.has_digest in
    let has_size = i.tested.has_size in
    let not_empty = i.tested.not_empty in
    let scanned = i.tested.scanned in
    let verdict = i.tested.verdict in
    let bound = i.tested.bound in
    let of_digest = i.tested.of_digest in
    let opened = i.tested.opened in
    let hashed = i.tested.hashed in
    let made = i.tested.made in ground (arith, eq_refl i.tested.digest, nat_eq_refl i.tested.size)

pub data AllBacked (b : Bodies) (t : Tables) (sender : String)
    : List ArtifactReference → Type 0 where
  none_left : AllBacked b t sender []
  backed :
      {r : ArtifactReference} {rest : List ArtifactReference}
      → IsBacked b t sender r
      → AllBacked b t sender rest
      → AllBacked b t sender (r ∷ rest)
