-- ===== src/Releases/Download.antt =====
-- `GenerateDownload` of internal/service/release.go. The expiry of the link is left out.
use Prim.Native.String.{◌++◌ as concat}
use saas_admin.Prelude.{
  ℕ, ◌+◌, String, Bool, true, not, ◌&&◌, none, some, List, ◌==◌, if◌then◌else◌,
}
use saas_admin.Prelude.Table.{select}
use saas_admin.Prelude.Rows.{select_all}
use saas_admin.Apperr.{AppError, Result, ok, err, new, internal}
use saas_admin.Database.{db_error}
use saas_admin.Model.{License, releases}
use saas_admin.Licensing.Service.{Call}
use saas_admin.Licensing.Sdk.{load_license_for_sdk}
use saas_admin.Releases.{Release, ReleaseArtifact, ReleaseTables, of_release, is_uploaded}
use saas_admin.Releases.Feed.{
  lookup_failed, none_available, FeedCode, stable, is_valid_release_channel, contains,
  allowed_platforms, normalize_platform, Lookup, located, was_yanked, find_latest_published,
  find_version_with_fallback,
}

pub record DownloadInput : Type 0 where
  pub license_key : String
  pub product_id : String
  pub version : String
  pub platform : String
  pub channel : String

pub record DownloadResult : Type 0 where
  pub url : String
  pub version : String
  pub platform : String
  pub sha256 : String
  pub file_size : ℕ

-- `PresignedGet`: a link, ErrStorageDisabled, or another error.
pub data PresignAnswer : Type 0 where
  link : String → PresignAnswer
  presign_disabled : PresignAnswer
  presign_error : String → PresignAnswer

-- `presign` answers for a file key and a file name; `filename` is `DownloadFilename`; `quote` is %q.
pub record DownloadCode : Type 0 where
  pub feed : FeedCode
  pub presign : String → String → PresignAnswer
  pub filename : Release → ReleaseArtifact → String
  pub quote : String → String

abbrev pub wanted : String → ReleaseArtifact → Bool
wanted platform a = (a.platform == platform) && is_uploaded a

abbrev pub lookup_error : Lookup → AppError
lookup_error was_yanked =
    new 410 "RELEASE_YANKED" "this release was yanked; pick a different version"
lookup_error none_available = new 404 "RELEASE_NOT_FOUND" "no published release matches the request"
lookup_error _ = internal db_error

-- The artifact of the release for the platform, and its link.
unfoldable pub deliver_artifact :
    DownloadCode → String → ReleaseTables → Release → Result DownloadResult
unfolding select select_all
deliver_artifact c platform db r =
    elim (select (wanted platform) (select_all (of_release r.id) db.artifacts)) [
      | none ↦ err (
          new 404 "PLATFORM_NOT_AVAILABLE" (
            concat "release "
              (concat r.version (concat " has no artifact for platform " (c.quote platform)))))
      | some a ↦ elim (c.presign a.file_key (c.filename r a)) [
        | link url ↦ ok (record {
          url = url;
          version = r.version;
          platform = a.platform;
          sha256 = a.sha256;
          file_size = a.file_size;
        })
        | presign_disabled ↦ err (new 503 "STORAGE_DISABLED" "release storage is not configured")
        | presign_error e ↦ err (internal e)
      ]
    ]

-- Statement 2 finds the version, 3 and on are the queries of the feed.
unfoldable pub find_release :
    DownloadCode → Call → DownloadInput → String → License → ReleaseTables → Lookup
unfolding find_latest_published find_version_with_fallback
find_release c call input channel lic db =
    if input.version == ""
    then find_latest_published c.feed (λ n. call.io (3 + n)) lic.product_id channel
        (normalize_platform c.feed input.platform) db
    else find_version_with_fallback (call.io 2) lic.product_id input.version channel db

abbrev pub channel_of : DownloadInput → String
channel_of input = if input.channel == "" then stable else input.channel

unfoldable pub answer_lookup :
    DownloadCode → String → ReleaseTables → Lookup → Result DownloadResult
unfolding deliver_artifact
answer_lookup c platform db (located r) = deliver_artifact c platform db r
answer_lookup c platform db none_available = err (lookup_error none_available)
answer_lookup c platform db was_yanked = err (lookup_error was_yanked)
answer_lookup c platform db lookup_failed = err (lookup_error lookup_failed)

-- The request once its license is looked up.
unfoldable pub download_for :
    DownloadCode → Call → DownloadInput → ReleaseTables → Result License → Result DownloadResult
unfolding find_release answer_lookup
download_for c call input db (err e) = err e
download_for c call input db (ok lic) =
    answer_lookup c (normalize_platform c.feed input.platform) db
      (find_release c call input (channel_of input) lic db)

abbrev pub invalid_platform : AppError
invalid_platform =
    new 400 "INVALID_PLATFORM"
      "invalid platform (allowed: darwin-arm64, darwin-x64, windows-arm64, windows-x64, linux-arm64, linux-x64, linux-armhf)"

abbrev pub invalid_channel : AppError
invalid_channel = new 400 "INVALID_CHANNEL" "invalid channel (allowed: stable, beta, alpha, dev)"

unfoldable pub generate_download :
    DownloadCode → Call → DownloadInput → List License → ReleaseTables → Result DownloadResult
unfolding load_license_for_sdk download_for
generate_download c call input licenses db =
    if not (contains (normalize_platform c.feed input.platform) allowed_platforms)
    then err invalid_platform
    else if not (is_valid_release_channel (channel_of input))
    then err invalid_channel
    else download_for c call input db (
        load_license_for_sdk call.now call.io call.crypto input.license_key input.product_id
          (some releases) true licenses)
