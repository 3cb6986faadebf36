-- ===== src/Releases/Feed.antt =====
-- The releases that a client may see: the channels, the published releases of
-- internal/store/release.go, and the latest by version of internal/service/release.go.
use Prim.Native.String.{◌++◌ as concat}
use Prim.Native.Char.{code}
use saas_admin.Prelude.{
  ℕ, zero, suc, ◌+◌, String, Bool, true, false, not, ◌&&◌, ◌||◌, Option, none, some, List, [], ◌∷◌,
  ◌++◌, ◌==◌, ltb, leb, nat_eq, if◌then◌else◌,
}
use saas_admin.Prelude.Table.{select, count}
use saas_admin.Prelude.Rows.{select_all}
use saas_admin.Releases.{
  Release, ReleaseArtifact, ReleaseTables, is_published, is_yanked, of_release, is_uploaded,
}

-- What the feeds use of other code: ORDER BY published_at DESC, id DESC, `strings.ToLower`, and
-- `IsValid` and `Compare(v, w) > 0` of golang.org/x/mod/semver.
pub record FeedCode : Type 0 where
  pub order : List Release → List Release
  pub lower : String → String
  pub valid : String → Bool
  pub newer : String → String → Bool

abbrev pub stable : String
stable = "stable"

-- `IsValidReleaseChannel`
abbrev pub is_valid_release_channel : String → Bool
is_valid_release_channel c = (c == stable) || ((c == "beta") || ((c == "alpha") || (c == "dev")))

unfoldable pub channel_fallback_chain : String → List String
channel_fallback_chain c =
    if c == "dev"
    then "dev" ∷ ("alpha" ∷ ("beta" ∷ (stable ∷ [])))
    else if c == "alpha"
    then "alpha" ∷ ("beta" ∷ (stable ∷ []))
    else if c == "beta"
    then "beta" ∷ (stable ∷ [])
    else stable ∷ []

abbrev pub contains : String → List String → Bool
contains s [] = false
contains s (x ∷ xs) = (x == s) || contains s xs

abbrev pub allowed_platforms : List String
allowed_platforms =
    "darwin-arm64"
    ∷ ("darwin-x64"
        ∷ ("windows-arm64"
            ∷ ("windows-x64" ∷ ("linux-arm64" ∷ ("linux-x64" ∷ ("linux-armhf" ∷ []))))))

abbrev pub platform_aliases : List (String × String)
platform_aliases =
    ("darwin-aarch64", "darwin-arm64")
    ∷ (("darwin-x86_64", "darwin-x64")
        ∷ (("windows-x86_64", "windows-x64")
            ∷ (("windows-aarch64", "windows-arm64")
                ∷ (("linux-x86_64", "linux-x64")
                    ∷ (("linux-aarch64", "linux-arm64") ∷ (("linux-armv7", "linux-armhf") ∷ []))))))

abbrev pub alias : String → String → List (String × String) → String
alias key default [] = default
alias key default ((from, to) ∷ rest) = if from == key then to else alias key default rest

abbrev pub normalize_platform : FeedCode → String → String
normalize_platform c p = alias (c.lower p) p platform_aliases

-- The platform filter of a feed: an uploaded artifact for the platform.
abbrev pub offers : String → Release → ReleaseArtifact → Bool
offers platform r a = of_release r.id a && ((a.platform == platform) && is_uploaded a)

abbrev pub in_feed : String → String → String → List ReleaseArtifact → Release → Bool
in_feed product_id channel platform artifacts r =
    (r.product_id == product_id)
    && ((r.channel == channel)
        && (is_published r.status
            && ((platform == "") || ltb 0 (count (offers platform r) artifacts))))

abbrev pub take : ℕ → List Release → List Release
take zero l = []
take (suc n) [] = []
take (suc n) (r ∷ l) = r ∷ take n l

-- `none` is an error. The limit is the caller's, within 1 and MaxFeedListLimit.
unfoldable pub list_published_releases_for_feed :
    FeedCode → Bool → String → String → String → ℕ → ReleaseTables → Option (List Release)
unfolding select_all
list_published_releases_for_feed c runs product_id channel platform limit db =
    if runs
    then some (
        take limit
          (c.order (select_all (in_feed product_id channel platform db.artifacts) db.releases)))
    else none

abbrev pub starts_with_v : String → Bool
starts_with_v String.[] = false
starts_with_v (String.◌∷◌ c s) = nat_eq (code c) 118

unfoldable pub semver_normalize : FeedCode → String → String
semver_normalize c v =
    if v == ""
    then ""
    else (let w = if starts_with_v v then v else concat "v" v in if c.valid w then w else "")

-- The `less` of `sortBySemverDesc`.
unfoldable pub comes_first : FeedCode → Release → Release → Bool
unfolding semver_normalize
comes_first c r s =
    let v = semver_normalize c r.version in
    let w = semver_normalize c s.version in
    if v == "" then false else if w == "" then true else c.newer v w

-- A stable sort: an element goes before the first that does not come before it.
unfoldable pub insert : FeedCode → Release → List Release → List Release
unfolding comes_first
insert c r [] = r ∷ []
insert c r (x ∷ xs) =
    let rest = insert c r xs in if comes_first c x r then x ∷ rest else r ∷ (x ∷ xs)

unfoldable pub sort_by_semver_desc : FeedCode → List Release → List Release
unfolding insert
sort_by_semver_desc c [] = []
sort_by_semver_desc c (r ∷ rs) = insert c r (sort_by_semver_desc c rs)

-- The loop over the channels: `io n` is the query of the n-th. 1000 is `latestComputeWindow`.
unfoldable pub feed_pool :
    FeedCode
    → (ℕ → Bool)
    → ℕ
    → String
    → List String
    → String
    → ReleaseTables
    → Option (List Release)
unfolding list_published_releases_for_feed
feed_pool c io n product_id [] platform db = some []
feed_pool c io n product_id (ch ∷ chs) platform db =
    elim (list_published_releases_for_feed c (io n) product_id ch platform 1000 db) [
      | none ↦ none
      | some batch ↦ elim (feed_pool c io (n + 1) product_id chs platform db) [
        | none ↦ none
        | some rest ↦ some (batch ++ rest)
      ]
    ]

-- A release, ErrReleaseNoneAvailable or ErrReleaseNotFound, ErrReleaseYanked, or another error.
pub data Lookup : Type 0 where
  located : Release → Lookup
  none_available was_yanked lookup_failed : Lookup

abbrev pub first_of : List Release → Lookup
first_of [] = none_available
first_of (r ∷ rs) = located r

unfoldable pub find_latest_published :
    FeedCode → (ℕ → Bool) → String → String → String → ReleaseTables → Lookup
unfolding channel_fallback_chain feed_pool sort_by_semver_desc
find_latest_published c io product_id channel platform db =
    elim (feed_pool c io 0 product_id (channel_fallback_chain channel) platform db) [
      | none ↦ lookup_failed
      | some pool ↦ first_of (sort_by_semver_desc c pool)
    ]

abbrev pub this_version : String → String → Release → Bool
this_version product_id version r = (r.product_id == product_id) && (r.version == version)

unfoldable pub find_version_with_fallback : Bool → String → String → String → ReleaseTables → Lookup
unfolding select channel_fallback_chain
find_version_with_fallback runs product_id version channel db =
    if not runs
    then lookup_failed
    else elim (select (this_version product_id version) db.releases) [
      | none ↦ none_available
      | some r ↦
          if is_yanked r.status
          then was_yanked
          else if not (is_published r.status)
          then none_available
          else if not (contains r.channel (channel_fallback_chain channel))
          then none_available
          else located r
    ]

-- `ListForFeed`, for a limit of 1 to 100: `none` is an error, the invalid channel's included.
unfoldable pub list_for_feed :
    FeedCode → (ℕ → Bool) → String → String → String → ℕ → ReleaseTables → Option (List Release)
unfolding channel_fallback_chain feed_pool sort_by_semver_desc
list_for_feed c io product_id channel platform limit db =
    if not (is_valid_release_channel channel)
    then none
    else elim (feed_pool c io 0 product_id (channel_fallback_chain channel) platform db) [
      | none ↦ none
      | some pool ↦
          some (
            take (if (leb limit 0) || ltb 100 limit then 20 else limit)
              (sort_by_semver_desc c pool))
    ]
