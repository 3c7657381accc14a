-- ===== src/Artifacts/Bundle/Resolved.antt =====
-- What `resolve_bundle` and `verify_bundle_generation` of src/awr/artifacts/bundle.py promise.
use agent_work_relay.Prelude.{
  suc, ◌+◌, ◌≤◌, String, false, ◌≡◌, refl, ap, subst, ◌∙◌, none, List, [], ◌∷◌, ok, arith,
  bind-eq-ok, require-eq-ok, reject-eq-ok, ok-injective, length, utf8_length, ltb,
}
use agent_work_relay.Host.{Host}
use agent_work_relay.Artifacts.Tables.{Tables}
use agent_work_relay.Artifacts.Bundle.{
  ArtifactReference, WorkBundle, Bodies, BundleLimits, attach_all, place, ordered, total_length,
  resolve_bundle, bundle_of, verify_all, verify_bundle_generation,
}
use agent_work_relay.Artifacts.Bundle.Sound.{
  IsBacked, attachable_reference_inv, attachable_again, AllBacked, none_left, backed,
}

attach_all-AllBacked :
    (b : Bodies) (t : Tables) (sender : String) (ids : List String) (rs : List ArtifactReference)
    → attach_all b t sender ids ≡ ok rs
    → AllBacked b t sender rs × (length rs ≡ length ids)
unfolding attach_all
attach_all-AllBacked b t sender [] rs e =
    subst (λ x. AllBacked b t sender x × (length x ≡ 0)) (ok-injective e) (none_left, refl)
attach_all-AllBacked b t sender (k ∷ rest) rs e =
    let (r, first, e1) = bind-eq-ok _ _ e in
    let (others, more, e2) = bind-eq-ok _ _ e1 in
    let (all, same) = attach_all-AllBacked b t sender rest others more in
    subst (λ x. AllBacked b t sender x × (length x ≡ length (k ∷ rest))) (ok-injective e2)
      (backed (attachable_reference_inv b t sender k none r first) all, ap (λ n. suc n) same)

place-AllBacked :
    {b : Bodies} {t : Tables} {sender : String} {r : ArtifactReference}
    {rs : List ArtifactReference}
    → IsBacked b t sender r
    → AllBacked b t sender rs
    → AllBacked b t sender (place r rs)
unfolding place
place-AllBacked i none_left = backed i none_left
place-AllBacked {r} i (backed {r = x} {rest} j more) =
    let later = place-AllBacked i more in
    let first : AllBacked _ _ _ (r ∷ x ∷ rest) = backed i (backed j more) in
    let second : AllBacked _ _ _ (x ∷ place r rest) = backed j later in ground arith

ordered-AllBacked :
    {b : Bodies} {t : Tables} {sender : String} {rs : List ArtifactReference}
    → AllBacked b t sender rs
    → AllBacked b t sender (ordered rs)
unfolding ordered
ordered-AllBacked none_left = none_left
ordered-AllBacked (backed i more) = place-AllBacked i (ordered-AllBacked more)

length-place :
    (r : ArtifactReference) (rs : List ArtifactReference) → length (place r rs) ≡ 1 + length rs
unfolding place
length-place r [] = refl
length-place r (x ∷ rest) = ground (arith, length-place r rest)

length-ordered : (rs : List ArtifactReference) → length (ordered rs) ≡ length rs
unfolding ordered
length-ordered [] = refl
length-ordered (r ∷ rest) = ground (arith, length-place r (ordered rest), length-ordered rest)

total_length-place :
    (r : ArtifactReference) (rs : List ArtifactReference)
    → total_length (place r rs) ≡ r.byte_length + total_length rs
unfolding place total_length
total_length-place r [] = refl
total_length-place r (x ∷ rest) = ground (arith, total_length-place r rest)

total_length-ordered : (rs : List ArtifactReference) → total_length (ordered rs) ≡ total_length rs
unfolding ordered total_length
total_length-ordered [] = refl
total_length-ordered (r ∷ rest) =
    ground (arith, total_length-place r (ordered rest), total_length-ordered rest)

AllBacked-verify_all :
    {b : Bodies} {t : Tables} {sender : String} {rs : List ArtifactReference}
    → AllBacked b t sender rs
    → verify_all b t sender rs ≡ ok tt
unfolding verify_all
AllBacked-verify_all none_left = refl
AllBacked-verify_all {b} {t} {sender} (backed {r} i more) =
    ground (arith, attachable_again b t sender r i, AllBacked-verify_all more)

module _ (h : Host) (l : BundleLimits) (b : Bodies) (t : Tables) (sender markdown : String) where
  abbrev Promise : List String → WorkBundle → Type 0
  Promise ids bundle =
      AllBacked b t sender bundle.references
      × (length bundle.references ≡ length ids)
      × (length ids ≤ l.max_artifacts)
      × (utf8_length markdown + total_length bundle.references ≤ l.max_bundle_bytes)
      × (verify_bundle_generation b t sender bundle ≡ ok tt)

  bundle_of-Promise :
      (ids : List String) (rs : List ArtifactReference)
      → attach_all b t sender ids ≡ ok rs
      → ltb l.max_artifacts (length ids) ≡ false
      → ltb l.max_bundle_bytes (utf8_length markdown + total_length rs) ≡ false
      → Promise ids (bundle_of h markdown (ordered rs))
  unfolding verify_bundle_generation
  bundle_of-Promise ids rs attached few light =
      let (all, same) = attach_all-AllBacked b t sender ids rs attached in
      let sorted = ordered-AllBacked all in
      (
        sorted,
        length-ordered rs ∙ same,
        ground arith,
        ground (arith, total_length-ordered rs),
        AllBacked-verify_all sorted,
      )

-- Where `resolve_bundle` gives a bundle: each of its references stands for an artifact of the sender
-- that is CLEAN, with a CLEAN receipt for its digest and a clean body of that digest and length; there
-- are as many as the IDs given, and no more than the limit; the Markdown and the bodies together are
-- within the size limit; and `verify_bundle_generation` accepts the bundle while the tables and the
-- bodies are the same.
pub resolve_bundle_sound :
    (h : Host) (l : BundleLimits) (b : Bodies) (t : Tables) (sender markdown : String)
    (ids : List String) (bundle : WorkBundle)
    → resolve_bundle h l b t sender markdown ids ≡ ok bundle
    → AllBacked b t sender bundle.references
      × (length bundle.references ≡ length ids)
      × (length ids ≤ l.max_artifacts)
      × (utf8_length markdown + total_length bundle.references ≤ l.max_bundle_bytes)
      × (verify_bundle_generation b t sender bundle ≡ ok tt)
unfolding resolve_bundle
resolve_bundle_sound h l b t sender markdown ids bundle e =
    let (small, e1) = reject-eq-ok _ _ _ e in
    let (distinct, e2) = require-eq-ok _ _ _ e1 in
    let (few, e3) = reject-eq-ok _ _ _ e2 in
    let (rs, attached, e4) = bind-eq-ok _ _ e3 in
    let (light, e5) = reject-eq-ok _ _ _ e4 in
    subst (Promise h l b t sender markdown ids) (ok-injective e5)
      (bundle_of-Promise h l b t sender markdown ids rs attached few light)
