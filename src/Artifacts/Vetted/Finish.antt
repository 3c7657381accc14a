-- ===== src/Artifacts/Vetted/Finish.antt =====
-- What `complete_scan` of src/awr/storage/artifact_sqlite.py leaves behind.
use agent_work_relay.Prelude.{
  ℕ, String, Bool, true, false, not, ◌||◌, ◌≡◌, sym, subst, ◌⊎◌, inl, inr, Option, none, some,
  option_cases, ok, err, arith, or_else,
}
use agent_work_relay.Artifacts.Status.{ArtifactStatus, clean, status_is}
use agent_work_relay.Artifacts.Records.{Artifact, ArtifactSecurityReceipt}
use agent_work_relay.Artifacts.Rows.{find_artifact, find_receipt, set_artifact}
use agent_work_relay.Artifacts.Tables.{key_error, Tables, append_receipt}
use agent_work_relay.Artifacts.Store.Scan.{complete_scan, finish_row, bound_status, finished}
use agent_work_relay.Artifacts.Vetted.{is_past_scan, attests, IsVetted, moved-IsVetted}

-- A caller reports a result of a scan: CLEAN, or a status that is not past the scan.
abbrev pub is_scan_result : ArtifactStatus → Bool
is_scan_result status = status_is status clean || not (is_past_scan status)

pub bound_status-attests :
    (o : Option ArtifactSecurityReceipt) (status : ArtifactStatus)
    → is_scan_result status ≡ true
    → is_past_scan (bound_status o status) ≡ true
    → (attests o ≡ true) ⊎ ((o ≡ none) × (bound_status o status ≡ clean))
unfolding bound_status
bound_status-attests o clean r p = ground arith
bound_status-attests o _ r p = ground arith

pub finish_row_shape :
    (a b : Artifact) (lease : String) (status : ArtifactStatus) (detected : Option String) (now : ℕ)
    (o : Option ArtifactSecurityReceipt) (t t' : Tables)
    → finish_row a lease status detected now o t ≡ ok (b, t')
    → (t'.security ≡ t.security)
      × (t'.artifacts ≡ set_artifact (finished a status detected) t.artifacts)
      × ((o ≡ none) → status_is status clean ≡ false)
unfolding finish_row append_receipt
finish_row_shape a b lease status detected now o t t' e = ground arith

abbrev pub receipt_of : Artifact → Tables → Option ArtifactSecurityReceipt
receipt_of a t = find_receipt a.artifact_id (or_else a.sha256 "") t.security

pub complete_shape :
    (k : String) (lease : String) (status : ArtifactStatus) (detected : Option String) (now : ℕ)
    (b : Artifact) (t t' : Tables) (a : Artifact)
    → find_artifact k t.artifacts ≡ some a
    → complete_scan k lease status detected now t ≡ ok (b, t')
    → (t' ≡ t)
      ⊎ (finish_row a lease (bound_status (receipt_of a t) status) detected now (receipt_of a t) t
          ≡ ok (b, t'))
unfolding complete_scan
complete_shape k lease status detected now b t t' a found e = ground arith

pub complete_found :
    (k : String) (lease : String) (status : ArtifactStatus) (detected : Option String) (now : ℕ)
    (t : Tables)
    → find_artifact k t.artifacts ≡ none
    → complete_scan k lease status detected now t ≡ err key_error
unfolding complete_scan
complete_found k lease status detected now t e = ground arith

finish_row-IsVetted :
    (a b : Artifact) (lease : String) (status : ArtifactStatus) (detected : Option String) (now : ℕ)
    (t t' : Tables)
    → is_scan_result status ≡ true
    → finish_row a lease (bound_status (receipt_of a t) status) detected now (receipt_of a t) t
      ≡ ok (b, t')
    → IsVetted t
    → IsVetted t'
finish_row-IsVetted a b lease status detected now t t' r e all =
    let o = receipt_of a t in
    let (same, new, none_clean) =
      finish_row_shape a b lease (bound_status o status) detected now o t t' e in
    moved-IsVetted (finished a (bound_status o status) detected) t t' new same
      (λ p. elim (bound_status-attests o status r p) [
        | inl attested ↦ attested
        | inr w ↦ let (missing, is_clean) = w in let no = none_clean missing in ground arith
      ])
      all

pub complete_scan-IsVetted :
    (k : String) (lease : String) (status : ArtifactStatus) (detected : Option String) (now : ℕ)
    (b : Artifact) (t t' : Tables)
    → is_scan_result status ≡ true
    → complete_scan k lease status detected now t ≡ ok (b, t')
    → IsVetted t
    → IsVetted t'
complete_scan-IsVetted k lease status detected now b t t' r e all =
    elim (option_cases (find_artifact k t.artifacts)) [
      | inl missing ↦
          let refused = complete_found k lease status detected now t missing in λ x a found p. cc
      | inr w ↦
          let (a, found) = w in
          elim (complete_shape k lease status detected now b t t' a found e) [
            | inl same ↦ subst IsVetted (sym same) all
            | inr f ↦ finish_row-IsVetted a b lease status detected now t t' r f all
          ]
    ]
