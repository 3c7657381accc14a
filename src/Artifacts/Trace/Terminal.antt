-- ===== src/Artifacts/Trace/Terminal.antt =====
-- The rows of terminal artifacts along a sequence of transactions: src/awr/storage/artifact_sqlite.py.
use agent_work_relay.Prelude.{
  ℕ, ◌+◌, String, Bool, true, false, ◌≡◌, refl, ap, ◌∙◌, ◌⊎◌, inl, inr, Option, none, some, List,
  ok, err, arith, eq_iff, option_cases,
}
use agent_work_relay.Artifacts.Status.{ArtifactStatus, terminal}
use agent_work_relay.Artifacts.Records.{Artifact, ArtifactSecurityReceipt, ScanClaim}
use agent_work_relay.Artifacts.Rows.{
  find_artifact, set_artifact, find_artifact-set_artifact, find_artifact-append, find_artifact-key,
}
use agent_work_relay.Artifacts.Tables.{Tables, append_receipt, put_security_receipt, key_error}
use agent_work_relay.Artifacts.Store.Declare.{declare, update_status}
use agent_work_relay.Artifacts.Store.Scan.{
  claim_scan_lease, complete_scan, leased, finished, bound_status,
}
use agent_work_relay.Artifacts.Vetted.{declare_shape, claim_shape, claim_found}
use agent_work_relay.Artifacts.Intake.{Limits, Stream, WriteOutcome, finalize_stream}
use agent_work_relay.Artifacts.Vetted.Arrive.{finalize_stream-keeps}
use agent_work_relay.Artifacts.Trace.{
  Write, declares, updates, receives, claims, records, completes, History, here, next,
}
use agent_work_relay.Artifacts.Vetted.Finish.{
  complete_shape, complete_found, finish_row_shape, receipt_of,
}

-- The rows that are terminal in the first tables stand in the second ones as they are.
abbrev pub KeepsTerminal : Tables → Tables → Type 0
KeepsTerminal t t' =
    (k : String) (a : Artifact)
    → find_artifact k t.artifacts ≡ some a
    → terminal a.status ≡ true
    → find_artifact k t'.artifacts ≡ some a

same-KeepsTerminal : (t t' : Tables) → t'.artifacts ≡ t.artifacts → KeepsTerminal t t'
same-KeepsTerminal t t' same k a found e = rw same found

moved-KeepsTerminal :
    (b c : Artifact) (t t' : Tables)
    → find_artifact b.artifact_id t.artifacts ≡ some c
    → terminal c.status ≡ false
    → t'.artifacts ≡ set_artifact b t.artifacts
    → KeepsTerminal t t'
moved-KeepsTerminal b c t t' stored live rows k a found e =
    rw rows (ground (arith, find_artifact-set_artifact k b t.artifacts, eq_iff b.artifact_id k))

stored_at_id :
    (k : String) (rows : List Artifact) (a : Artifact)
    → find_artifact k rows ≡ some a
    → find_artifact a.artifact_id rows ≡ some a
stored_at_id k rows a found =
    ap (λ x. find_artifact x rows) (find_artifact-key k rows a found) ∙ found

declare-KeepsTerminal :
    (a b : Artifact) (fresh : Bool) (t t' : Tables)
    → declare a t ≡ ok ((b, fresh), t')
    → KeepsTerminal t t'
declare-KeepsTerminal a b fresh t t' e = elim (declare_shape a b fresh t t' e).1 [
  | inl kept ↦ same-KeepsTerminal t t' kept
  | inr added ↦ λ k x found live. rw added (ground (arith, find_artifact-append k a t.artifacts))
]

update_terminal :
    (k : String) (s : ArtifactStatus) (t t' : Tables) (a : Artifact)
    → find_artifact k t.artifacts ≡ some a
    → update_status k s t ≡ ok (tt, t')
    → (t'.artifacts ≡ t.artifacts)
      ⊎ (terminal a.status ≡ false)
        × (t'.artifacts ≡ set_artifact (record a { status = s }) t.artifacts)
unfolding update_status
update_terminal k s t t' a found e = ground arith

claim_terminal :
    (k : String) (now ttl : ℕ) (lease : String) (c : Option ScanClaim) (t t' : Tables)
    (a : Artifact)
    → find_artifact k t.artifacts ≡ some a
    → claim_scan_lease k now ttl lease t ≡ ok (c, t')
    → (t'.artifacts ≡ t.artifacts) ⊎ (terminal a.status ≡ false)
unfolding claim_scan_lease append_receipt
claim_terminal k now ttl lease c t t' a found e = ground arith

complete_terminal :
    (k lease : String) (s : ArtifactStatus) (detected : Option String) (now : ℕ) (b : Artifact)
    (t t' : Tables) (a : Artifact)
    → find_artifact k t.artifacts ≡ some a
    → complete_scan k lease s detected now t ≡ ok (b, t')
    → (t' ≡ t) ⊎ (terminal a.status ≡ false)
unfolding complete_scan
complete_terminal k lease s detected now b t t' a found e = ground arith

update_found :
    (k : String) (s : ArtifactStatus) (t : Tables)
    → find_artifact k t.artifacts ≡ none
    → update_status k s t ≡ err key_error
unfolding update_status
update_found k s t e = ground arith

update_status-KeepsTerminal :
    (k : String) (s : ArtifactStatus) (t t' : Tables)
    → update_status k s t ≡ ok (tt, t')
    → KeepsTerminal t t'
update_status-KeepsTerminal k s t t' e = elim (option_cases (find_artifact k t.artifacts)) [
  | inl missing ↦ let refused = update_found k s t missing in λ x a found live. cc
  | inr w ↦
      let (a, found) = w in
      elim (update_terminal k s t t' a found e) [
        | inl same ↦ same-KeepsTerminal t t' same
        | inr m ↦
            moved-KeepsTerminal (record a { status = s }) a t t'
              (stored_at_id k t.artifacts a found) m.0 m.1
      ]
]

claim_scan_lease-KeepsTerminal :
    (k : String) (now ttl : ℕ) (lease : String) (c : Option ScanClaim) (t t' : Tables)
    → claim_scan_lease k now ttl lease t ≡ ok (c, t')
    → KeepsTerminal t t'
claim_scan_lease-KeepsTerminal k now ttl lease c t t' e =
    elim (option_cases (find_artifact k t.artifacts)) [
      | inl missing ↦ let refused = claim_found k now ttl lease t missing in λ x a found live. cc
      | inr w ↦
          let (a, found) = w in
          let stored = stored_at_id k t.artifacts a found in
          elim (claim_terminal k now ttl lease c t t' a found e) [
            | inl same ↦ same-KeepsTerminal t t' same
            | inr live ↦ elim (claim_shape k now ttl lease c t t' a found e).1 [
              | inl same ↦ same-KeepsTerminal t t' same
              | inr (inl new) ↦
                  moved-KeepsTerminal (leased a lease (now + ttl) a.scan_attempt) a t t' stored live
                    new
              | inr (inr new) ↦
                  moved-KeepsTerminal (leased a lease (now + ttl) (a.scan_attempt + 1)) a t t'
                    stored live new
            ]
          ]
    ]

complete_scan-KeepsTerminal :
    (k lease : String) (s : ArtifactStatus) (detected : Option String) (now : ℕ) (b : Artifact)
    (t t' : Tables)
    → complete_scan k lease s detected now t ≡ ok (b, t')
    → KeepsTerminal t t'
complete_scan-KeepsTerminal k lease s detected now b t t' e =
    elim (option_cases (find_artifact k t.artifacts)) [
      | inl missing ↦
          let refused = complete_found k lease s detected now t missing in λ x a found live. cc
      | inr w ↦
          let (a, found) = w in
          elim (complete_terminal k lease s detected now b t t' a found e) [
            | inl same ↦ same-KeepsTerminal t t' (ap (λ x. x.artifacts) same)
            | inr live ↦ elim (complete_shape k lease s detected now b t t' a found e) [
              | inl same ↦ same-KeepsTerminal t t' (ap (λ x. x.artifacts) same)
              | inr f ↦
                  let bound = bound_status (receipt_of a t) s in
                  moved-KeepsTerminal (finished a bound detected) a t t'
                    (stored_at_id k t.artifacts a found) live
                    (finish_row_shape a b lease bound detected now _ t t' f).1
            ]
          ]
    ]

put_security_receipt-KeepsTerminal :
    (r r' : ArtifactSecurityReceipt) (t t' : Tables)
    → put_security_receipt r t ≡ ok (r', t')
    → t'.artifacts ≡ t.artifacts
unfolding put_security_receipt
put_security_receipt-KeepsTerminal r r' t t' e = ground arith

finalize_stream-KeepsTerminal :
    (l : Limits) (k : String) (actor : Option String) (s : Stream) (w : WriteOutcome) (t : Tables)
    → KeepsTerminal t (finalize_stream l k actor s w t).1
finalize_stream-KeepsTerminal l k actor s w t x a found e =
    finalize_stream-keeps (λ u. find_artifact x u.artifacts ≡ some a)
      (λ u v rows security kept. rw rows kept)
      (λ j status u v moved kept. update_status-KeepsTerminal j status u v moved x a kept e)
      (λ b digest n u stored early kept.
        let marked : Artifact = record b { sha256 = some digest; byte_length = some n } in
        let after : Tables = record u { artifacts = set_artifact marked u.artifacts } in
        moved-KeepsTerminal marked b u after stored (ground arith) refl x a kept e)
      l k actor s w t found

Write-KeepsTerminal : {t t' : Tables} → Write t t' → KeepsTerminal t t'
Write-KeepsTerminal {t} {t'} (declares a b fresh d e) = declare-KeepsTerminal a b fresh t t' e
Write-KeepsTerminal {t} {t'} (updates k s e) = update_status-KeepsTerminal k s t t' e
Write-KeepsTerminal {t} (receives l k actor s w) = finalize_stream-KeepsTerminal l k actor s w t
Write-KeepsTerminal {t} {t'} (claims k now ttl lease c e) =
    claim_scan_lease-KeepsTerminal k now ttl lease c t t' e
Write-KeepsTerminal {t} {t'} (records r r' e) =
    same-KeepsTerminal t t' (put_security_receipt-KeepsTerminal r r' t t' e)
Write-KeepsTerminal {t} {t'} (completes k lease s detected now b r e) =
    complete_scan-KeepsTerminal k lease s detected now b t t' e

-- An artifact that is rejected or relayed is stored as it is, in every field, after every sequence of
-- transactions, in which artifacts are declared with the status DECLARED and scans are completed with
-- CLEAN or a status that is not past the scan.
pub History-terminal :
    {t t' : Tables} (k : String) (a : Artifact)
    → History t t'
    → find_artifact k t.artifacts ≡ some a
    → terminal a.status ≡ true
    → find_artifact k t'.artifacts ≡ some a
History-terminal k a here found e = found
History-terminal k a (next h w) found e =
    Write-KeepsTerminal w k a (History-terminal k a h found e) e
