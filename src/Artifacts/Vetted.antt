-- ===== src/Artifacts/Vetted.antt =====
-- The receipts behind the states of the artifacts of src/awr/storage/artifact_sqlite.py.
pub mod Arrive
pub mod Finish
use agent_work_relay.Prelude.{
  ℕ, ◌+◌, String, option_cases, Bool, true, false, sym, ◌||◌, ◌&&◌, ◌==◌, ◌≡◌, refl, ap, subst, ◌⊎◌,
  inl, inr, Option, none, some, List, [], ◌∷◌, ◌++◌, ok, err, arith, eq_iff, or_else,
}
use agent_work_relay.Artifacts.Status.{ArtifactStatus, clean, ready_to_relay, relayed, status_is}
use agent_work_relay.Artifacts.Records.{
  Artifact, ArtifactSecurityReceipt, ArtifactReceipt, ScanClaim,
}
use agent_work_relay.Artifacts.Verdicts.{status_from_security_receipt}
use agent_work_relay.Artifacts.Rows.{
  find_artifact, find_receipt, set_artifact, find_artifact-set_artifact, find_artifact-append,
  find_receipt-append, find_artifact-key,
}
use agent_work_relay.Artifacts.Tables.{key_error, Tables, append_receipt, put_security_receipt}
use agent_work_relay.Artifacts.Store.Declare.{declare, update_status}
use agent_work_relay.Artifacts.Store.Scan.{
  leased, claim_scan_lease, complete_scan, finish_row, bound_status,
}

-- The states that only a passed scan leads to.
abbrev pub is_past_scan : ArtifactStatus → Bool
is_past_scan clean = true
is_past_scan ready_to_relay = true
is_past_scan relayed = true
is_past_scan _ = false

abbrev pub attests : Option ArtifactSecurityReceipt → Bool
attests none = false
attests (some r) = is_past_scan (status_from_security_receipt r)

-- The receipt for the artifact and its digest stands for CLEAN or a later status.
abbrev pub is_attested : Artifact → List ArtifactSecurityReceipt → Bool
is_attested a security = attests (find_receipt a.artifact_id (or_else a.sha256 "") security)

abbrev pub Vets : Artifact → List ArtifactSecurityReceipt → Type 0
Vets a security = is_past_scan a.status ≡ true → is_attested a security ≡ true

-- Every artifact that has passed its scan has such a receipt.
abbrev pub IsVetted : Tables → Type 0
IsVetted t = (k : String) (a : Artifact) → find_artifact k t.artifacts ≡ some a → Vets a t.security

pub append_receipt-rows :
    (e : ArtifactReceipt) (t : Tables) {r : ArtifactReceipt} {t' : Tables}
    → append_receipt e t ≡ ok (r, t')
    → (t'.artifacts ≡ t.artifacts) × (t'.security ≡ t.security)
unfolding append_receipt
append_receipt-rows e t h = ground arith

-- A row that is vetted may be written.
set_artifact-IsVetted :
    (b : Artifact) (rows : List Artifact) (security : List ArtifactSecurityReceipt)
    → Vets b security
    → ((k : String) (a : Artifact) → find_artifact k rows ≡ some a → Vets a security)
    → (k : String) (a : Artifact) → find_artifact k (set_artifact b rows) ≡ some a
    → Vets a security
set_artifact-IsVetted b rows security vb all k a e p =
    ground (arith, find_artifact-set_artifact k b rows, all k a)

pub moved-IsVetted :
    (b : Artifact) (t t' : Tables)
    → t'.artifacts ≡ set_artifact b t.artifacts
    → t'.security ≡ t.security
    → Vets b t.security
    → IsVetted t
    → IsVetted t'
moved-IsVetted b t t' rows same vb all k a e = rw same (
    set_artifact-IsVetted b t.artifacts t.security vb all k a
      (subst (λ x. find_artifact k x ≡ some a) rows e))

pub same-IsVetted :
    (t t' : Tables)
    → t'.artifacts ≡ t.artifacts
    → t'.security ≡ t.security
    → IsVetted t
    → IsVetted t'
same-IsVetted t t' rows same all k a e =
    rw same (all k a (subst (λ x. find_artifact k x ≡ some a) rows e))

update_status_shape :
    (k : String) (s : ArtifactStatus) (t t' : Tables)
    → update_status k s t ≡ ok (tt, t')
    → (t' ≡ t)
      ⊎ ((a : Artifact) × (find_artifact k t.artifacts ≡ some a)
          × (is_past_scan s ≡ true → is_past_scan a.status ≡ true)
          × (t' ≡ record t { artifacts = set_artifact (record a { status = s }) t.artifacts }))
unfolding update_status
update_status_shape k s t t' e = ground arith

pub update_status-IsVetted :
    (k : String) (s : ArtifactStatus) (t t' : Tables)
    → update_status k s t ≡ ok (tt, t')
    → IsVetted t
    → IsVetted t'
update_status-IsVetted k s t t' e all = elim (update_status_shape k s t t' e) [
  | inl same ↦ subst IsVetted (sym same) all
  | inr w ↦
      let (a, found, mono, new) = w in
      moved-IsVetted (record a { status = s }) t t' (ap (λ x. x.artifacts) new)
        (ap (λ x. x.security) new) (λ p. all k a found (mono p)) all
]

pub put_security_receipt-IsVetted :
    (r r' : ArtifactSecurityReceipt) (t t' : Tables)
    → put_security_receipt r t ≡ ok (r', t')
    → IsVetted t
    → IsVetted t'
unfolding put_security_receipt
put_security_receipt-IsVetted r r' t t' e all k a found p =
    let old = all k a in
    ground (arith, find_receipt-append a.artifact_id (or_else a.sha256 "") r t.security)

pub declare_shape :
    (a b : Artifact) (fresh : Bool) (t t' : Tables)
    → declare a t ≡ ok ((b, fresh), t')
    → (t'.security ≡ t.security)
      × ((t'.artifacts ≡ t.artifacts) ⊎ (t'.artifacts ≡ t.artifacts ++ a ∷ []))
unfolding declare append_receipt
declare_shape a b fresh t t' e = ground arith

appended-IsVetted :
    (a : Artifact) (t t' : Tables)
    → is_past_scan a.status ≡ false
    → t'.security ≡ t.security
    → t'.artifacts ≡ t.artifacts ++ a ∷ []
    → IsVetted t
    → IsVetted t'
appended-IsVetted a t t' new same rows all k x found p = rw same (
    ground (
      arith,
      find_artifact-append k a t.artifacts,
      all k x,
      subst (λ l. find_artifact k l ≡ some x) rows found,
    ))

pub declare-IsVetted :
    (a b : Artifact) (fresh : Bool) (t t' : Tables)
    → is_past_scan a.status ≡ false
    → declare a t ≡ ok ((b, fresh), t')
    → IsVetted t
    → IsVetted t'
declare-IsVetted a b fresh t t' new e all =
    let (same, rows) = declare_shape a b fresh t t' e in
    elim rows [
      | inl kept ↦ same-IsVetted t t' kept same all
      | inr added ↦ appended-IsVetted a t t' new same added all
    ]

pub claim_shape :
    (k : String) (now ttl : ℕ) (lease : String) (c : Option ScanClaim) (t t' : Tables)
    (a : Artifact)
    → find_artifact k t.artifacts ≡ some a
    → claim_scan_lease k now ttl lease t ≡ ok (c, t')
    → (t'.security ≡ t.security)
      × ((t'.artifacts ≡ t.artifacts)
          ⊎ ((t'.artifacts ≡ set_artifact (leased a lease (now + ttl) a.scan_attempt) t.artifacts)
              ⊎ (t'.artifacts
                  ≡ set_artifact (leased a lease (now + ttl) (a.scan_attempt + 1)) t.artifacts)))
unfolding claim_scan_lease append_receipt
claim_shape k now ttl lease c t t' a found e = ground arith

pub claim_found :
    (k : String) (now ttl : ℕ) (lease : String) (t : Tables)
    → find_artifact k t.artifacts ≡ none
    → claim_scan_lease k now ttl lease t ≡ err key_error
unfolding claim_scan_lease
claim_found k now ttl lease t e = ground arith

pub claim_scan_lease-IsVetted :
    (k : String) (now ttl : ℕ) (lease : String) (c : Option ScanClaim) (t t' : Tables)
    → claim_scan_lease k now ttl lease t ≡ ok (c, t')
    → IsVetted t
    → IsVetted t'
claim_scan_lease-IsVetted k now ttl lease c t t' e all =
    elim (option_cases (find_artifact k t.artifacts)) [
      | inl missing ↦ let refused = claim_found k now ttl lease t missing in λ x a found p. cc
      | inr w ↦
          let (a, found) = w in
          let (same, rows) = claim_shape k now ttl lease c t t' a found e in
          elim rows [
            | inl kept ↦ same-IsVetted t t' kept same all
            | inr (inl new) ↦ moved-IsVetted _ t t' new same (ground arith) all
            | inr (inr new) ↦ moved-IsVetted _ t t' new same (ground arith) all
          ]
    ]
