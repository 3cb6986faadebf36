-- ===== src/Releases/Tests.antt =====
-- The theorems of releases at concrete data.
use saas_admin.Prelude.{
  ℕ, suc, ◌≤◌, String, ◌≡◌, refl, inl, inr, true, false, ◌&&◌, none, some, List, [], ◌∷◌, arith,
  ◌==◌, eq_iff, ltb, Bool-cases,
}
use mathlib.Core.Path.{subst}
use saas_admin.Prelude.Table.{select, count, update}
use saas_admin.Apperr.{ok, new}
use saas_admin.Database.{healthy}
use saas_admin.Model.{License, releases}
use saas_admin.Licensing.Sample.{license, call}
use saas_admin.Licensing.Sdk.{SdkAnswer}
use saas_admin.Releases.{
  Release, ReleaseArtifact, ReleaseTables, ReleaseStatus, draft, published, has_id, unsigned,
  publish_release,
}
use saas_admin.Releases.Artifacts.{artifact_id, update_artifact_signature}
use saas_admin.Releases.Steps.{ReleaseOp, step, run, publish, yank, remove_artifact, set_file}
use saas_admin.Releases.Keys.{Keys}
use saas_admin.Releases.Kept.{shipped, Complete, artifacts_of}
use saas_admin.Releases.Gate.{run_frozen, run-Complete}
use saas_admin.Releases.Lifecycle.{Moves, status_of, step_refines}
use saas_admin.Releases.Publish.{PublishCall, KeyAnswer, active_key, signed, stored, key_answer}
use saas_admin.Releases.Publish
use saas_admin.Releases.Signed.{publish_ships}
use saas_admin.Releases.Feed.{in_feed, comes_first, FeedCode, stable, find_latest_published}
use saas_admin.Releases.Latest.{IsOrder}
use saas_admin.Releases.Pool.{offered, WithinWindow, find_latest_published-Newest}
use mathlib.Core.List.{Mem}
use mathlib.Core.List.Perm
use saas_admin.Licensing.Store.{find_license_by_key}
use saas_admin.Releases.Download.{
  DownloadCode, DownloadInput, DownloadResult, link, generate_download,
}
use saas_admin.Releases.Served.{Handed, generate_download_gated}
use saas_admin.Releases.Drafts.{upload_disabled, attach}
use saas_admin.Releases.Rollback.{attach_atomic}

abbrev release : String → ReleaseStatus → Release
release version status = record {
  id = version;
  product_id = "prod";
  version = version;
  channel = "stable";
  name = "";
  release_notes = "";
  status = status;
  yanked_reason = "";
  published_at = none;
  yanked_at = none;
}

abbrev artifact : String → String → ReleaseArtifact
artifact id version = record {
  id = id;
  release_id = version;
  platform = "linux-x64";
  file_key = "key";
  file_size = 7;
  sha256 = "hash";
  ed25519_sig = "";
  content_type = "";
  signing_key_id = none;
}

-- Version 1 is out, version 22 is a draft; each has an uploaded artifact.
abbrev tables : ReleaseTables
tables = record {
  releases = release "1" published ∷ (release "22" draft ∷ []);
  artifacts = artifact "a" "1" ∷ (artifact "b" "22" ∷ []);
}

tables-Keys : Keys tables
unfolding count
tables-Keys = (
  λ i. elim (Bool-cases ("1" == i)) [
    | inl e ↦
        subst (λ (j : String). count (has_id j) tables.releases ≤ 1) ((eq_iff "1" i).0 e)
          (omega arith)
    | inr e ↦ ground (arith, e)
  ],
  λ i. elim (Bool-cases ("a" == i)) [
    | inl e ↦
        subst (λ (j : String). count (artifact_id j) tables.artifacts ≤ 1) ((eq_iff "a" i).0 e)
          (omega arith)
    | inr e ↦ ground (arith, e)
  ],
)

-- Attempts to change what has shipped, and a yank.
abbrev ops : List ReleaseOp
ops =
    remove_artifact healthy "a"
    ∷ (set_file healthy "a" "other" 9 "forged" "" ∷ (yank healthy 5 "1" "bad" ∷ []))

run_frozen_example :
    (shipped "1" (run ops tables) ≡ true)
    × (artifacts_of "1" (run ops tables) ≡ artifacts_of "1" tables)
unfolding select
run_frozen_example = run_frozen ops "1" tables tables-Keys refl

run-Complete_example : Complete "22" (run (publish healthy 5 "22" false "" ∷ []) tables).artifacts
unfolding select run publish_release count update
run-Complete_example =
    run-Complete (publish healthy 5 "22" false "" ∷ []) "22" tables tables-Keys (λ h. absurd (cc))
      refl

step_refines_example :
    Moves (status_of "22" tables) (status_of "22" (step (publish healthy 5 "22" false "") tables))
step_refines_example = step_refines (publish healthy 5 "22" false "") "22" tables tables-Keys

abbrev publishing : PublishCall
publishing = record {
  now = 5;
  io = λ n. healthy;
  others = λ n. [];
  storage = λ key. stored;
  require_signing = some true;
  signer = some (active_key "k1");
  sign = λ a. signed "sig" "k1";
  quote = λ s. s;
}

publish_ships_example :
    let after = (Publish.publish publishing "22" tables).0 in
    (shipped "22" after ≡ true)
    × Complete "22" after.artifacts
    × ((key : String)
        → key_answer publishing ≡ active_key key
        → count (unsigned "22" key) after.artifacts ≡ 0)
    × (publishing.require_signing ≡ some true
        → (key : String) × (key_answer publishing ≡ active_key key))
unfolding Publish.publish publish_release count update update_artifact_signature
publish_ships_example =
    publish_ships publishing "22" tables
      {r = record (release "22" published) { published_at = some 5 }} tables-Keys refl

-- A version with more characters is newer here.
abbrev size : String → ℕ
size String.[] = 0
size (String.◌∷◌ c s) = suc (size s)

abbrev feed : FeedCode
feed = record {
  order = λ l. l;
  lower = λ s. s;
  valid = λ s. true;
  newer = λ v w. ltb (size w) (size v);
}

feed-IsOrder : IsOrder feed
feed-IsOrder = record {
  asym = λ v w h. ground (arith, h);
  between = λ u v w h n. ground (arith, h, n);
  keeps = λ l. Perm.refl l;
}

-- Both versions are out.
abbrev both : ReleaseTables
both = record tables { releases = release "1" published ∷ (release "22" published ∷ []) }

both-WithinWindow : WithinWindow "prod" "linux-x64" both
unfolding count
both-WithinWindow ch =
    let s = release "1" published in
    let r = release "22" published in
    let p = in_feed "prod" ch "linux-x64" both.artifacts in ground arith

find_latest_published-Newest_example :
    Mem (release "22" published) both.releases
    × (offered "prod" stable "linux-x64" both (release "22" published) ≡ true)
    × (count
          (λ s.
            offered "prod" stable "linux-x64" both s && comes_first feed s (release "22" published))
          both.releases
        ≡ 0)
unfolding find_latest_published count
find_latest_published-Newest_example =
    find_latest_published-Newest feed (λ n. true) "prod" stable "linux-x64" both
      {r = release "22" published} feed-IsOrder both-WithinWindow refl

abbrev download : DownloadCode
download = record {
  feed = feed;
  presign = λ key name. link key;
  filename = λ r a. r.version;
  quote = λ s. s;
}

abbrev wish : DownloadInput
wish = record {
  license_key = "KEY";
  product_id = "prod";
  version = "";
  platform = "linux-x86_64";
  channel = "";
}

abbrev handed_out : DownloadResult
handed_out = record {
  url = "key";
  version = "22";
  platform = "linux-x64";
  sha256 = "hash";
  file_size = 7;
}

generate_download_gated_example :
    (lic : License) × SdkAnswer
      (call 10 "").now
      "prod"
      (some releases)
      (find_license_by_key (call 10 "").crypto (call 10 "").io "KEY" (license ∷ []))
      (ok lic)
    × Handed download (call 10 "") wish both lic handed_out
unfolding generate_download count
generate_download_gated_example =
    generate_download_gated download (call 10 "") wish (license ∷ []) both {d = handed_out}
      feed-IsOrder refl

attach_atomic_example :
    (attach healthy healthy
      (record (artifact "c" "22") { platform = "darwin-x64" })
      upload_disabled
      tables).0
    ≡ tables
unfolding attach select
attach_atomic_example =
    attach_atomic healthy (record (artifact "c" "22") { platform = "darwin-x64" }) upload_disabled
      tables {e = new 503 "STORAGE_DISABLED" "release storage is not configured on this server"}
      refl
