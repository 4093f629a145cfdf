-- ===== src/Tools/Resources/Listed.antt =====
-- Which resources can be read (src/tools.cpp `read_resource`), against those that are listed.
use jjmcp.Base.{
  ◌≡◌, ◌⊎◌, inl, inr, refl, sym, Bool, true, false, not, ◌||◌, List, [], ◌∷◌, ◌++◌, Option, some,
  length, drop, Bool-cases, Option-cases, arith,
}
use mathlib.Core.Bool.{false≢true}
use jjmcp.Text.{Bytes, codes, starts_with, find_first, occurs, ◌=ᵇ◌}
use jjmcp.Text.Laws.{=ᵇ_sound}
use jjmcp.Process.{success, guard_success}
use jjmcp.Json.{Json}
use jjmcp.State.{ServerState, path_join}
use jjmcp.Tools.Resources.{
  ResourceSpec, resource_scheme, resource_catalog, is_known, project_root_of, read_text_file,
  existing, contents_json, read_resource,
}

starts_with-drop :
    (pat text : Bytes) → starts_with pat text ≡ true → text ≡ pat ++ drop (length pat) text
unfolding starts_with
starts_with-drop [] text h = refl
starts_with-drop (p ∷ pat) [] h = absurd (false≢true h)
starts_with-drop (p ∷ pat) (c ∷ text) h = ground (arith, starts_with-drop pat text)

true_of : (b : Bool) → not b ≡ false → b ≡ true
true_of true h = refl
true_of false h = sym h

-- A resource of a list, by its file name.
abbrev pub InList : Bytes → List ResourceSpec → Type 0
InList filename [] = ⊥
InList filename (spec ∷ specs) = (spec.filename ≡ filename) ⊎ InList filename specs

module _ (json : Json) (exists : Bytes → Bool) (content : Bytes → Option Bytes) where
  open json use {Value}

  known_listed :
      (root filename : Bytes) (specs : List ResourceSpec)
      → is_known filename specs ≡ true
      → exists (path_join root filename) ≡ true
      → InList filename (existing json exists root specs)
  unfolding is_known existing
  known_listed root filename [] known found = absurd (false≢true known)
  known_listed root filename (spec ∷ specs) known found =
      elim (Bool-cases (spec.filename =ᵇ filename)) [
        | inl e ↦
            let same : spec.filename ≡ filename = =ᵇ_sound spec.filename filename e in
            rw (same, found) (inl refl)
        | inr e ↦
            let more = known_listed root filename specs (rw e at known) found in
            elim (Bool-cases (exists (path_join root spec.filename))) [
              | inl here ↦ rw here (inr more)
              | inr missing ↦ rw missing more
            ]
      ]

  listed_known :
      (root filename : Bytes) (specs : List ResourceSpec)
      → InList filename (existing json exists root specs)
      → InList filename specs × (exists (path_join root filename) ≡ true)
  unfolding existing
  listed_known root filename [] listed = elim listed [ ]
  listed_known root filename (spec ∷ specs) listed =
      elim (Bool-cases (exists (path_join root spec.filename))) [
        | inl here ↦
            elim (rw here at listed)
              as (λ _.
                (InList filename (spec ∷ specs)) × (exists (path_join root filename) ≡ true)) [
                  | inl same ↦ (inl same, rw (sym same) here)
                  | inr more ↦
                      let (inside, found) = listed_known root filename specs more in
                      (inr inside, found)
                ]
        | inr missing ↦
            let (inside, found) = listed_known root filename specs (rw missing at listed) in
            (inr inside, found)
      ]

  -- A name of the catalog is one file in the root of the project.
  catalog_accepted :
      (filename : Bytes)
      → InList filename resource_catalog
      → (starts_with resource_scheme (resource_scheme ++ filename) ≡ true)
        × (drop (length resource_scheme) (resource_scheme ++ filename) ≡ filename)
        × ((occurs (codes "/") filename || occurs (codes "..") filename) ≡ false)
        × (is_known filename resource_catalog ≡ true)
  unfolding starts_with occurs find_first is_known ◌=ᵇ◌
  catalog_accepted filename (inl e) = rw⁻¹ e (refl, refl, refl, refl)
  catalog_accepted filename (inr (inl e)) = rw⁻¹ e (refl, refl, refl, refl)
  catalog_accepted filename (inr (inr (inl e))) = rw⁻¹ e (refl, refl, refl, refl)
  catalog_accepted filename (inr (inr (inr (inl e)))) = rw⁻¹ e (refl, refl, refl, refl)
  catalog_accepted filename (inr (inr (inr (inr x)))) = elim x [ ]

  -- What a read gives, and of which file.
  abbrev pub Reads : Bytes → ServerState → Value → Type 0
  Reads uri state contents =
      (root filename : Bytes) × (project_root_of state ≡ some root)
      × (uri ≡ resource_scheme ++ filename)
      × InList filename (existing json exists root resource_catalog)
      × (contents ≡ contents_json json uri (read_text_file content (path_join root filename)))

  read_success :
      (uri : Bytes) (state : ServerState) (contents : Value)
      → read_resource json exists content uri state ≡ success contents
      → Reads uri state contents
  unfolding read_resource
  read_success uri state contents h =
      let (scheme, rest) = guard_success (not (starts_with resource_scheme uri)) _ _ h in
      let filename = drop (length resource_scheme) uri in
      elim (Option-cases (project_root_of state)) [
        | inl e ↦ absurd (let k = rw e at rest in cc)
        | inr (root, e) ↦
            let bound : _ ≡ success contents = rw e at rest in
            let (plain, rest1) =
              guard_success (occurs (codes "/") filename || occurs (codes "..") filename) _ _
                bound in
            let (known, rest2) =
              guard_success (not (is_known filename resource_catalog)) _ _ rest1 in
            let (found, rest3) = guard_success (not (exists (path_join root filename))) _ _ rest2 in
            (
              root,
              filename,
              e,
              starts_with-drop resource_scheme uri (true_of _ scheme),
              known_listed root filename resource_catalog (true_of _ known) (true_of _ found),
              cc,
            )
      ]

  -- A resource is read from a file of the catalog in the project root, and nothing else is: a read
  -- succeeds exactly for the listed resources, and gives the text of that file.
  pub read_resource_lem :
      (state : ServerState)
      → ((uri : Bytes) (contents : Value)
          → read_resource json exists content uri state ≡ success contents
          → Reads uri state contents)
        × ((root filename : Bytes)
            → project_root_of state ≡ some root
            → InList filename (existing json exists root resource_catalog)
            → read_resource json exists content (resource_scheme ++ filename) state
              ≡ success (
                  contents_json json
                    (resource_scheme ++ filename)
                    (read_text_file content (path_join root filename))))
  unfolding read_resource
  read_resource_lem state = (
    λ uri contents h. read_success uri state contents h,
    λ root filename bound listed.
        let (inside, found) = listed_known root filename resource_catalog listed in
        let (scheme, name, plain, known) = catalog_accepted filename inside in
        rw (scheme, bound, name, plain, known, found) refl,
  )
