-- ===== src/Artifacts/Examples/Bundles.antt =====
-- A bundle of one artifact: src/awr/artifacts/bundle.py.
use agent_work_relay.Prelude.{
  true, ◌+◌, ◌≤◌, ◌==◌, ◌≡◌, refl, contains, none, some, [], ◌∷◌, ok, if◌then◌else◌, length,
  utf8_length,
}
use agent_work_relay.Host.{get}
use agent_work_relay.Artifacts.Status.{clean}
use agent_work_relay.Artifacts.Records.{Artifact}
use agent_work_relay.Artifacts.Verdicts.{status_from_security_receipt, status_from_reasons}
use agent_work_relay.Artifacts.Rows.{find_artifact, find_receipt}
use agent_work_relay.Artifacts.Tables.{Tables}
use agent_work_relay.Artifacts.Bundle.{
  WorkBundle, Bodies, BundleLimits, bundle_of, reference_of, resolve_bundle, is_distinct,
  attach_all, attachable_reference, clean_reference, total_length, ordered, place,
  verify_bundle_generation,
}
use agent_work_relay.Artifacts.Bundle.Sound.{AllBacked}
use agent_work_relay.Artifacts.Bundle.Resolved.{resolve_bundle_sound}
use agent_work_relay.Artifacts.Examples.{host, tables_of, quarantined_row, receipt}

abbrev clean_row : Artifact
clean_row = record quarantined_row { status = clean }

abbrev shelf : Bodies
shelf = record {
  open_clean = λ k d. if k == "a" then some (record { digest = "d"; size = 3 }) else none;
  is_printable = λ c. true;
}

abbrev bundle_limits : BundleLimits
bundle_limits = record { markdown_max_bytes = 100; max_artifacts = 2; max_bundle_bytes = 200 }

abbrev clean_tables : Tables
clean_tables = tables_of (clean_row ∷ []) (receipt ∷ [])

abbrev bundle : WorkBundle
bundle = bundle_of host "do" (reference_of shelf clean_row 3 "d" ∷ [])

bundle_resolves :
    resolve_bundle host bundle_limits shelf clean_tables "ann" "do" ("a" ∷ []) ≡ ok bundle
unfolding resolve_bundle is_distinct contains attach_all attachable_reference find_artifact
    clean_reference find_receipt status_from_security_receipt status_from_reasons get total_length
    ordered place
bundle_resolves = refl

resolve_bundle_sound_example :
    AllBacked shelf clean_tables "ann" bundle.references
    × (length bundle.references ≡ 1)
    × (1 ≤ 2)
    × (utf8_length "do" + total_length bundle.references ≤ 200)
    × (verify_bundle_generation shelf clean_tables "ann" bundle ≡ ok tt)
resolve_bundle_sound_example =
    resolve_bundle_sound host bundle_limits shelf clean_tables "ann" "do" ("a" ∷ []) bundle
      bundle_resolves
