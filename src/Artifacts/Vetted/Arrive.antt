-- ===== src/Artifacts/Vetted/Arrive.antt =====
-- What `finalize_stream` of src/awr/artifacts/service.py leaves behind.
use agent_work_relay.Prelude.{
  ℕ, String, Bool, true, false, ◌≡◌, ◌∙◌, refl, ap, subst, Option, none, some, not, ◌&&◌, option_eq,
  Result, ok, err, arith, bind-eq-ok, ok-injective, if◌then◌else◌,
}
use agent_work_relay.Host.{Fields}
use agent_work_relay.Artifacts.Status.{
  ArtifactStatus, status_is, quarantined, declared, rejected_tampering,
}
use agent_work_relay.Artifacts.Records.{Artifact}
use agent_work_relay.Artifacts.Rows.{find_artifact, set_artifact, find_artifact-key}
use agent_work_relay.Artifacts.Tables.{Outcome, Tables}
use agent_work_relay.Artifacts.Store.Declare.{update_status}
use agent_work_relay.Artifacts.Intake.{
  Limits, Stream, WriteOutcome, written, too_large, write_failed, IntakeError, bytes_differ,
  wrong_status, Finalized, record_rejection, raise_after, bytes_differ, wrong_status,
  digest_differs, length_differs, digest_differs_from, length_differs_from, rejection_payload,
  is_present, is_length, store_quarantined, return_after, accept_bytes, finalize_row,
  finalize_stream,
}
use agent_work_relay.Artifacts.Vetted.{append_receipt-rows}

is_declared : (s : ArtifactStatus) → not (status_is s declared) ≡ false → s ≡ declared
is_declared declared e = refl
is_declared _ e = ground arith

-- What the updates of a status, the fingerprint and the journal entries keep, the whole call keeps.
module _ (P : Tables → Type 0)
    (same : (t t' : Tables) → t'.artifacts ≡ t.artifacts → t'.security ≡ t.security → P t → P t')
    (update : (k : String) (s : ArtifactStatus) (t t' : Tables)
      → update_status k s t ≡ ok (tt, t')
      → P t
      → P t')
    (mark : (a : Artifact) (digest : String) (n : ℕ) (t : Tables)
      → find_artifact a.artifact_id t.artifacts ≡ some a
      → a.status ≡ declared
      → P t
      → P (record t {
        artifacts =
            set_artifact (record a { sha256 = some digest; byte_length = some n }) t.artifacts;
      })) where
  record_rejection-keeps :
      (a : Artifact) (actor : Option String) (s : ArtifactStatus) (payload : Fields) (t t' : Tables)
      → record_rejection a actor s payload t ≡ ok t'
      → P t
      → P t'
  unfolding record_rejection
  record_rejection-keeps a actor s payload t t' e all =
      let ((u, t1), moved, e1) = bind-eq-ok _ _ e in
      let ((x, t2), appended, e2) = bind-eq-ok _ _ e1 in
      let (rows, security) = append_receipt-rows _ t1 appended in
      subst P (ok-injective e2) (same t1 t2 rows security (update a.artifact_id s t t1 moved all))

  store_quarantined-keeps :
      (l : Limits) (a b : Artifact) (actor : Option String) (digest : String) (n : ℕ)
      (t t' : Tables)
      → find_artifact a.artifact_id t.artifacts ≡ some a
      → a.status ≡ declared
      → store_quarantined l a actor digest n t ≡ ok (b, t')
      → P t
      → P t'
  unfolding store_quarantined
  store_quarantined-keeps l a b actor digest n t t' stored early e all =
      let ((u, t1), moved, e1) = bind-eq-ok _ _ e in
      let ((x, t2), appended, e2) = bind-eq-ok _ _ e1 in
      let (rows, security) = append_receipt-rows _ t1 appended in
      let marked : Artifact = record a { sha256 = some digest; byte_length = some n } in
      let t0 : Tables = record t { artifacts = set_artifact marked t.artifacts } in
      let start = mark a digest n t stored early all in
      subst P (ap (λ p. p.1) (ok-injective e2))
        (same t1 t2 rows security (update a.artifact_id quarantined t0 t1 moved start))

  -- The tables that a call leaves have the property.
  record Leaves (f : Finalized) : Type 0 where
    kept_after : P f.1

  raise_after-keeps :
      (e : IntakeError) (t : Tables) (o : Outcome Tables)
      → P t
      → ((t' : Tables) → o ≡ ok t' → P t')
      → Leaves (raise_after e t o)
  unfolding raise_after
  raise_after-keeps e t (ok t') all k = record { kept_after = k t' refl }
  raise_after-keeps e t (err s) all k = record { kept_after = all }

  return_after-keeps :
      (t : Tables) (o : Outcome (Artifact × Tables))
      → P t
      → ((b : Artifact) (t' : Tables) → o ≡ ok (b, t') → P t')
      → Leaves (return_after t o)
  unfolding return_after
  return_after-keeps t (ok (b, t')) all k = record { kept_after = k b t' refl }
  return_after-keeps t (err s) all k = record { kept_after = all }

  either-keeps :
      (c : Bool) (x y : Finalized) → Leaves x → (c ≡ false → Leaves y) → Leaves (if c then x else y)
  either-keeps true x y p q = p
  either-keeps false x y p q = q refl

  accept_bytes-keeps :
      (l : Limits) (a : Artifact) (actor : Option String) (w : WriteOutcome) (t : Tables)
      → find_artifact a.artifact_id t.artifacts ≡ some a
      → a.status ≡ declared
      → P t
      → Leaves (accept_bytes l a actor w t)
  unfolding accept_bytes
  accept_bytes-keeps l a actor too_large t f d all =
      raise_after-keeps _ t _ all λ t' e. record_rejection-keeps a actor _ _ t t' e all
  accept_bytes-keeps l a actor write_failed t f d all = record { kept_after = all }
  accept_bytes-keeps l a actor (written digest n) t f d all =
      let payload = rejection_payload rejected_tampering digest n in
      let refused = λ (s : IntakeError).
        raise_after-keeps s t (record_rejection a actor rejected_tampering payload t) all
          (λ t' e. record_rejection-keeps a actor rejected_tampering payload t t' e all) in
      let stored =
        return_after-keeps t (store_quarantined l a actor digest n t) all
          (λ b t' e. store_quarantined-keeps l a b actor digest n t t' f d e all) in
      either-keeps (digest_differs_from a.expected_sha256 digest) _ _ (refused digest_differs) (λ _.
        either-keeps (length_differs_from a.expected_byte_length n) _ _ (refused length_differs)
          (λ _. stored))

  finalize_row-keeps :
      (l : Limits) (o : Option Artifact) (actor : Option String) (s : Stream) (w : WriteOutcome)
      (t : Tables)
      → ((a : Artifact) → o ≡ some a → find_artifact a.artifact_id t.artifacts ≡ some a)
      → P t
      → Leaves (finalize_row l o actor s w t)
  unfolding finalize_row
  finalize_row-keeps l none actor s w t found all = record { kept_after = all }
  finalize_row-keeps l (some a) actor s w t found all =
      let kept : (r : Result IntakeError Artifact) → Leaves (r, t) =
        λ r. record { kept_after = all } in
      let agree = option_eq (some s.digest) a.sha256 && is_length a.byte_length s.byte_length in
      either-keeps (status_is a.status quarantined && is_present a.sha256) _ _
        (either-keeps agree _ _ (kept (ok a)) (λ _. kept (err bytes_differ)))
        (λ _.
          either-keeps (not (status_is a.status declared)) _ _ (kept (err wrong_status))
            (λ d. accept_bytes-keeps l a actor w t (found a refl) (is_declared a.status d) all))

  pub finalize_stream-keeps :
      (l : Limits) (k : String) (actor : Option String) (s : Stream) (w : WriteOutcome) (t : Tables)
      → P t
      → P (finalize_stream l k actor s w t).1
  unfolding finalize_stream
  finalize_stream-keeps l k actor s w t all =
      (finalize_row-keeps l (find_artifact k t.artifacts) actor s w t
        (λ a found.
          ap (λ x. find_artifact x t.artifacts) (find_artifact-key k t.artifacts a found) ∙ found)
        all).kept_after
