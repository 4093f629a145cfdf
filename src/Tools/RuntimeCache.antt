-- ===== src/Tools/RuntimeCache.antt =====
-- The panes that carry the runtime (src/tools.hpp `RuntimeBootstrapCache`, its methods in
-- src/tools.cpp). The hash map is an association list: `generations_[k] = v` replaces or adds, and
-- `erase` drops every entry of the key.
use jjmcp.Base.{
  ◌≡◌, Bool, true, false, ◌||◌, List, [], ◌∷◌, Option, none, some, arith, if◌then◌else◌,
}
use jjmcp.Text.{Bytes, is_empty, ◌=ᵇ◌}
use jjmcp.Text.Laws.{=ᵇ_sound}

pub record RuntimeBootstrapCache : Type 0 where
  pub generations : List (Bytes × Bytes)

unfoldable pub find : Bytes → List (Bytes × Bytes) → Option Bytes
find k [] = none
find k ((j, v) ∷ m) = if j =ᵇ k then some v else find k m

unfoldable pub erase : Bytes → List (Bytes × Bytes) → List (Bytes × Bytes)
erase k [] = []
erase k ((j, v) ∷ m) = if j =ᵇ k then erase k m else (j, v) ∷ erase k m

unfoldable pub is_current : RuntimeBootstrapCache → Bytes → Bytes → Bool
is_current cache pane_key generation = elim (find pane_key cache.generations) [
  | none ↦ false
  | some recorded ↦
      if is_empty generation || is_empty recorded then true else recorded =ᵇ generation
]

unfoldable pub mark : RuntimeBootstrapCache → Bytes → Bytes → RuntimeBootstrapCache
mark cache pane_key generation = record cache {
  generations = (pane_key, generation) ∷ erase pane_key cache.generations;
}

unfoldable pub invalidate : RuntimeBootstrapCache → Bytes → RuntimeBootstrapCache
invalidate cache pane_key = record cache { generations = erase pane_key cache.generations }

find-erase :
    (k j : Bytes) (m : List (Bytes × Bytes))
    → find j (erase k m) ≡ (if k =ᵇ j then none else find j m)
unfolding find erase
find-erase k j [] = ground arith
find-erase k j ((i, v) ∷ m) = ground (arith, find-erase k j m, =ᵇ_sound i k, =ᵇ_sound k j)

-- After a mark, the pane is current for exactly the generations that the mark names: any, if the
-- mark or the question has none, and otherwise the very one; other panes are as before.
pub is_current-mark :
    (cache : RuntimeBootstrapCache) (k g j q : Bytes)
    → is_current (mark cache k g) j q
      ≡ (if k =ᵇ j then is_empty q || is_empty g || g =ᵇ q else is_current cache j q)
unfolding is_current mark find
is_current-mark cache k g j q = ground (arith, find-erase k j cache.generations)

-- After an invalidation the pane is current for no generation, and other panes are as before.
pub is_current-invalidate :
    (cache : RuntimeBootstrapCache) (k j q : Bytes)
    → is_current (invalidate cache k) j q ≡ (if k =ᵇ j then false else is_current cache j q)
unfolding is_current invalidate
is_current-invalidate cache k j q = ground (arith, find-erase k j cache.generations)
