-- ===== src/Tools/Resources.antt =====
-- The resources: views of the project files of the binding (`list_resources_json` and `read_resource`
-- of src/tools.cpp). The files are parameters: which paths exist, and what opening one gives.
pub mod Listed
use jjmcp.Base.{
  ℕ, Bool, true, false, not, ◌||◌, List, [], ◌∷◌, ◌++◌, Option, none, some, map, length, drop,
  if◌then◌else◌,
}
use jjmcp.Text.{Bytes, codes, is_empty, starts_with, occurs, ◌=ᵇ◌}
use jjmcp.Process.{Result, success, failure}
use jjmcp.Json.{Json}
use jjmcp.State.{ServerState, path_join}

pub record ResourceSpec : Type 0 where
  pub filename : Bytes
  pub description : Bytes

abbrev pub resource_scheme : Bytes
resource_scheme = codes "jjmcp://project/"

abbrev pub resource_catalog : List ResourceSpec
resource_catalog =
    record {
      filename = codes "Project.toml";
      description = codes "Top-level package metadata for the bound project";
    }
    ∷ record {
      filename = codes "Manifest.toml";
      description = codes "Resolved dependency manifest for the bound project";
    }
    ∷ record {
      filename = codes "JuliaProject.toml";
      description = codes "Alternate top-level metadata when Project.toml is unused";
    }
    ∷ record {
      filename = codes "JuliaManifest.toml";
      description = codes "Alternate resolved manifest";
    }
    ∷ []

-- The test `known`.
unfoldable pub is_known : Bytes → List ResourceSpec → Bool
is_known filename [] = false
is_known filename (spec ∷ specs) = spec.filename =ᵇ filename || is_known filename specs

-- The root of the project, where one is bound.
unfoldable pub project_root_of : ServerState → Option Bytes
project_root_of state = elim state.binding [
  | none ↦ none
  | some binding ↦ if is_empty binding.project_root then none else some binding.project_root
]

-- A file that does not open reads as the empty text.
unfoldable pub read_text_file : (Bytes → Option Bytes) → Bytes → Bytes
read_text_file content path = elim (content path) [ none ↦ [] | some text ↦ text ]

module _ (json : Json) where
  open json use {Value, string, array, object}

  unfoldable pub resource_json : ResourceSpec → Value
  resource_json spec = object (
      (codes "uri", string (resource_scheme ++ spec.filename))
      ∷ (codes "name", string spec.filename)
      ∷ (codes "description", string spec.description)
      ∷ (codes "mimeType", string (codes "application/toml"))
      ∷ [])

  -- The loop over the catalog.
  unfoldable pub existing : (Bytes → Bool) → Bytes → List ResourceSpec → List ResourceSpec
  existing exists root [] = []
  existing exists root (spec ∷ specs) =
      let more = existing exists root specs in
      if exists (path_join root spec.filename) then spec ∷ more else more

  unfoldable pub list_resources_json : (Bytes → Bool) → ServerState → Value
  list_resources_json exists state = elim (project_root_of state) [
    | none ↦ array []
    | some root ↦ array (map resource_json (existing exists root resource_catalog))
  ]

  unfoldable pub contents_json : Bytes → Bytes → Value
  contents_json uri text = object (
      (
        codes "contents",
        array (
            object (
              (codes "uri", string uri)
              ∷ (codes "mimeType", string (codes "application/toml"))
              ∷ (codes "text", string text)
              ∷ [])
            ∷ []),
      )
      ∷ [])

  unfoldable pub read_resource :
      (Bytes → Bool) → (Bytes → Option Bytes) → Bytes → ServerState → Result Value
  read_resource exists content uri state =
      let filename = drop (length resource_scheme) uri in
      if not (starts_with resource_scheme uri)
      then failure (codes "unsupported URI scheme: " ++ uri)
      else elim (project_root_of state) [
        | none ↦ failure (codes "no project root bound; call jjmcp_bind with project_root")
        | some root ↦
            let path = path_join root filename in
            if occurs (codes "/") filename || occurs (codes "..") filename
            then failure (codes "resource path must be a single filename")
            else if not (is_known filename resource_catalog)
            then failure (codes "unknown resource: " ++ filename)
            else if not (exists path)
            then failure (codes "resource not found at " ++ path)
            else success (contents_json uri (read_text_file content path))
      ]
