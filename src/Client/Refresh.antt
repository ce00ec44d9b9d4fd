-- ===== src/Client/Refresh.antt =====
-- clients/go/refresh_strategy.go. The download of a URL (downloader.go) and the parsing of versions
-- and of descriptors are parameters; the versions that a server lists are not negative. The
-- variable `lastVersion` that the loader closes over is passed on.
pub mod Newest
use Prim.Native.String.{◌++◌ as str_append}
use stencil.Base.{
  ◌&&◌, ℕ, String, List, [], ◌∷◌, Bool, true, false, Option, none, some, ltb, if◌then◌else◌, str_eq,
}
use stencil.Base.Sprintf.{sprintf}
use stencil.Base.Outcome.{Outcome, ok, err, ◌>>=◌}

pub data RefreshStrategy : Type 0 where
  long_polling_refresh_strategy : RefreshStrategy
  version_based_refresh_strategy : RefreshStrategy

-- An error of the download, of parsing, or one of the two that the loader makes itself.
pub data LoadErr : Type 0 where
  request_failed : String → LoadErr
  bad_versions : String → LoadErr
  bad_descriptors : String → LoadErr
  no_versions_available : LoadErr
  already_upto_date : LoadErr

-- A loop over the rest of the array; `max` starts as its first element.
unfoldable pub max_from : ℕ → List ℕ → ℕ
max_from max [] = max
max_from max (value ∷ array) = max_from (if ltb max value then value else max) array

-- strings.TrimRight(url, "/")
unfoldable pub trim_right : String → String
trim_right String.[] = String.[]
trim_right (String.◌∷◌ c s) =
    let rest = trim_right s in
    if str_eq rest "" && str_eq (String.◌∷◌ c String.[]) "/" then "" else String.◌∷◌ c rest

module _ {R : Type 0} (new_resolver : List ℕ → Outcome String R)
    (parse_versions : List ℕ → Outcome String (List ℕ)) (decimal : ℕ → String) where
  abbrev pub Download : Type 0
  Download = String → Outcome String (List ℕ)

  unfoldable pub load_from_url : Download → String → Outcome LoadErr R
  load_from_url download url = elim (download url) [
    | err e ↦ err (request_failed e)
    | ok content ↦ elim (new_resolver content) [
      | err e ↦ err (bad_descriptors e)
      | ok resolver ↦ ok resolver
    ]
  ]

  -- The versions of the schema. The server answers each request as `download` says.
  unfoldable pub fetch_versions : Download → String → Outcome LoadErr (List ℕ)
  fetch_versions download versions_url = elim (download versions_url) [
    | err e ↦ err (request_failed e)
    | ok content ↦ elim (parse_versions content) [
      | err e ↦ err (bad_versions e)
      | ok versions ↦ ok versions
    ]
  ]

  -- What follows once the versions are known.
  unfoldable pub load_newest : Download → String → ℕ → List ℕ → Outcome LoadErr R × ℕ
  unfolding max_from load_from_url
  load_newest download versions_url last_version [] = (err no_versions_available, last_version)
  load_newest download versions_url last_version (version ∷ versions) =
      let max_version = max_from version (version ∷ versions) in
      if ltb last_version max_version
      then elim (load_from_url download (sprintf (versions_url ∷ "/" ∷ decimal max_version ∷ [])))
          as (λ _. Outcome LoadErr R × ℕ) [
            | err e ↦ (err e, last_version)
            | ok resolver ↦ (ok resolver, max_version)
          ]
      else (err already_upto_date, last_version)

  -- The loader of versionBasedRefresh: its result and `lastVersion` after it.
  unfoldable pub version_based_refresh : Download → String → ℕ → Outcome LoadErr R × ℕ
  unfolding fetch_versions load_newest trim_right
  version_based_refresh download url last_version =
      let versions_url = sprintf (trim_right url ∷ "/versions" ∷ []) in
      elim (fetch_versions download versions_url) [
        | err e ↦ (err e, last_version)
        | ok versions ↦ load_newest download versions_url last_version versions
      ]

  unfoldable pub long_polling_refresh : Download → String → ℕ → Outcome LoadErr R × ℕ
  unfolding load_from_url
  long_polling_refresh download url last_version = (load_from_url download url, last_version)

  unfoldable pub get_loader : RefreshStrategy → Download → String → ℕ → Outcome LoadErr R × ℕ
  unfolding version_based_refresh long_polling_refresh
  get_loader version_based_refresh_strategy = version_based_refresh
  get_loader long_polling_refresh_strategy = long_polling_refresh
