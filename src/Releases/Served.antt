-- ===== src/Releases/Served.antt =====
-- What `GenerateDownload` of internal/service/release.go hands out, and to whom.
use saas_admin.Prelude.{
  ◌+◌, String, ◌≡◌, refl, ap, ◌∙◌, ◌⊎◌, inl, inr, Bool, true, false, not, ◌&&◌, some, List, arith,
  ◌==◌, eq_iff, if◌then◌else◌, Bool-cases, Option-cases,
}
use saas_admin.Prelude.Table.{select, select-eq-some}
use saas_admin.Prelude.Rows.{select_all}
use saas_admin.Apperr.{AppError, Result, ok, err}
use saas_admin.Model.{License, releases}
use saas_admin.Licensing.Service.{Call}
use saas_admin.Licensing.Sdk.{load_license_for_sdk, SdkAnswer, load_license_for_sdk_lem}
use saas_admin.Releases.{Release, ReleaseArtifact, ReleaseTables, is_published, of_release}
use saas_admin.Releases.Feed.{
  contains, allowed_platforms, is_valid_release_channel, normalize_platform, channel_fallback_chain,
  this_version, Lookup, located, none_available, was_yanked, lookup_failed, find_latest_published,
  find_version_with_fallback,
}
use saas_admin.Releases.Latest.{IsOrder}
use saas_admin.Releases.Pool.{find_latest_published-offered}
use mathlib.Core.List.{Mem}
use saas_admin.Prelude.Members.{mem-select}
use saas_admin.Licensing.Store.{find_license_by_key}
use saas_admin.Database.{Found}
use saas_admin.Releases.Download.{
  invalid_platform, invalid_channel, DownloadCode, DownloadInput, DownloadResult, wanted,
  deliver_artifact, find_release, PresignAnswer, link, presign_disabled, presign_error, channel_of,
  generate_download, answer_lookup, download_for,
}

-- A published release of the product, in a channel that the client sees.
abbrev pub visible : String → String → Release → Bool
visible product_id channel r =
    (r.product_id == product_id)
    && (is_published r.status && contains r.channel (channel_fallback_chain channel))

-- The release of a request: a row that the client may see, and the version that it asks for, if it
-- asks for one.
abbrev pub Requested : String → String → String → ReleaseTables → Release → Type 0
Requested product_id channel version db r =
    Mem r db.releases
    × (visible product_id channel r ≡ true)
    × ((version == "") ≡ true ⊎ r.version ≡ version)

Requested-version :
    (runs : Bool) (product_id version channel : String) (db : ReleaseTables) {r : Release}
    → find_version_with_fallback runs product_id version channel db ≡ located r
    → Requested product_id channel version db r
unfolding find_version_with_fallback
Requested-version runs product_id version channel db {r = r} h = elim (Bool-cases runs) [
  | inr f ↦ absurd (ground (arith, h, f))
  | inl f ↦ elim (Option-cases (select (this_version product_id version) db.releases)) [
    | inl n ↦ absurd (ground (arith, h, f, n))
    | inr (x, s) ↦
        let m = select-eq-some (this_version product_id version) db.releases {r = x} s in
        let q : x ≡ r = ground (arith, h, f, s) in
        (
          rw (← q) (mem-select (this_version product_id version) db.releases {a = x} s),
          ground (arith, h, f, s, m),
          inr ((eq_iff r.version version).0 (rw (← q) (ground (arith, m)))),
        )
  ]
]

Requested-find_release :
    (c : DownloadCode) (call : Call) (input : DownloadInput) (channel : String) (lic : License)
    (db : ReleaseTables) {r : Release}
    → IsOrder c.feed
    → find_release c call input channel lic db ≡ located r
    → Requested lic.product_id channel input.version db r
unfolding find_release
Requested-find_release c call input channel lic db {r = r} o h =
    elim (Bool-cases (input.version == "")) [
      | inl e ↦
          let h' : find_latest_published c.feed (λ n. call.io (3 + n)) lic.product_id channel
                (normalize_platform c.feed input.platform) db
              ≡ located r =
            ground (arith, h, e) in
          let b =
            find_latest_published-offered c.feed (λ n. call.io (3 + n)) lic.product_id channel
              (normalize_platform c.feed input.platform) db {r = r} o h' in
          (b.0, ground (arith, b.1), inl e)
      | inr e ↦
          Requested-version (call.io 2) lic.product_id input.version channel db {r = r}
            (ground (arith, h, e))
    ]

-- A reply that names the release and the artifact, with the link to the artifact's file.
abbrev pub Names : DownloadCode → Release → ReleaseArtifact → DownloadResult → Type 0
Names c r a d =
    (c.presign a.file_key (c.filename r a) ≡ link d.url)
    × (d.version ≡ r.version)
    × (d.sha256 ≡ a.sha256)
    × (d.file_size ≡ a.file_size)

deliver_artifact-Names :
    (c : DownloadCode) (platform : String) (db : ReleaseTables) (r : Release) (a : ReleaseArtifact)
    (p : PresignAnswer) {d : DownloadResult}
    → select (wanted platform) (select_all (of_release r.id) db.artifacts) ≡ some a
    → c.presign a.file_key (c.filename r a) ≡ p
    → deliver_artifact c platform db r ≡ ok d
    → Names c r a d
unfolding deliver_artifact
deliver_artifact-Names c platform db r a (link url) {d = d} s e h =
    let q : url ≡ d.url = ground (arith, h, s, e) in
    (e ∙ ap link q, ground (arith, h, s, e), ground (arith, h, s, e), ground (arith, h, s, e))
deliver_artifact-Names c platform db r a presign_disabled s e h = absurd (ground (arith, h, s, e))
deliver_artifact-Names c platform db r a (presign_error x) s e h = absurd (ground (arith, h, s, e))

deliver_artifact_inv :
    (c : DownloadCode) (platform : String) (db : ReleaseTables) (r : Release) {d : DownloadResult}
    → deliver_artifact c platform db r ≡ ok d
    → (a : ReleaseArtifact) × (select (wanted platform) (select_all (of_release r.id) db.artifacts)
        ≡ some a)
      × Names c r a d
unfolding deliver_artifact
deliver_artifact_inv c platform db r {d = d} h =
    elim (Option-cases (select (wanted platform) (select_all (of_release r.id) db.artifacts))) [
      | inl n ↦ absurd (ground (arith, h, n))
      | inr (a, s) ↦ (a, s, deliver_artifact-Names c platform db r a _ {d = d} s refl h)
    ]

passed {ℓ} :
    {A : Type ℓ} (b : Bool) (e : AppError) (m : Result A) {d : A}
    → (if not b then err e else m) ≡ ok d
    → m ≡ ok d
passed true e m h = h
passed false e m h = absurd (cc)

-- What the download of a license hands out.
abbrev pub Handed :
    DownloadCode → Call → DownloadInput → ReleaseTables → License → DownloadResult → Type 0
Handed c call input db lic d =
    (r : Release) × (a : ReleaseArtifact) × Requested lic.product_id (channel_of input)
      input.version db r
    × (select (wanted (normalize_platform c.feed input.platform))
          (select_all (of_release r.id) db.artifacts)
        ≡ some a)
    × Names c r a d

handed :
    (c : DownloadCode) (call : Call) (input : DownloadInput) (lic : License) (db : ReleaseTables)
    (l : Lookup) {d : DownloadResult}
    → IsOrder c.feed
    → find_release c call input (channel_of input) lic db ≡ l
    → answer_lookup c (normalize_platform c.feed input.platform) db l ≡ ok d
    → Handed c call input db lic d
unfolding answer_lookup
handed c call input lic db (located r) {d = d} o e h =
    let (a, s, v) =
      deliver_artifact_inv c (normalize_platform c.feed input.platform) db r {d = d} h in
    (r, a, Requested-find_release c call input (channel_of input) lic db {r = r} o e, s, v)
handed c call input lic db none_available o e h = absurd (cc)
handed c call input lic db was_yanked o e h = absurd (cc)
handed c call input lic db lookup_failed o e h = absurd (cc)

Handed-to :
    (c : DownloadCode) (call : Call) (input : DownloadInput) (db : ReleaseTables)
    (f : Found License) (m : Result License) {d : DownloadResult}
    → IsOrder c.feed
    → SdkAnswer call.now input.product_id (some releases) f m
    → download_for c call input db m ≡ ok d
    → (lic : License) × SdkAnswer call.now input.product_id (some releases) f (ok lic)
      × Handed c call input db lic d
unfolding download_for
Handed-to c call input db f (err x) o a h = absurd (cc)
Handed-to c call input db f (ok lic) {d = d} o a h = (
  lic,
  a,
  handed c call input lic db (find_release c call input (channel_of input) lic db) {d = d} o refl h,
)

-- A download is handed out only for the license of the request's key, in the request's product and
-- usable now, of a product with releases; and only from a row of the releases that is published, of that
-- license's product, in a channel that the client may see, and of the version asked for, if one is. The
-- reply has the version of that release, and the link, the hash and the size of an uploaded artifact of
-- it for the platform. It assumes that the comparison of versions is an order and that ORDER BY permutes the rows.
pub generate_download_gated :
    (c : DownloadCode) (call : Call) (input : DownloadInput) (licenses : List License)
    (db : ReleaseTables) {d : DownloadResult}
    → IsOrder c.feed
    → generate_download c call input licenses db ≡ ok d
    → (lic : License) × SdkAnswer call.now input.product_id
        (some releases)
        (find_license_by_key call.crypto call.io input.license_key licenses)
        (ok lic)
      × Handed c call input db lic d
unfolding generate_download
generate_download_gated c call input licenses db {d = d} o h =
    let m =
      load_license_for_sdk call.now call.io call.crypto input.license_key input.product_id
        (some releases) true licenses in
    let rest = download_for c call input db m in
    let known = is_valid_release_channel (channel_of input) in
    let h' =
      passed (contains (normalize_platform c.feed input.platform) allowed_platforms)
        invalid_platform (if not known then err invalid_channel else rest) h in
    Handed-to c call input db (find_license_by_key call.crypto call.io input.license_key licenses) m
      {d = d} o
      (load_license_for_sdk_lem call.now call.io call.crypto input.license_key input.product_id
        (some releases) licenses)
      (passed known invalid_channel rest h')
