-- ===== src/Taint/Semantics/Defaults.antt =====
-- The effect of an operation that no rule describes.
use raksha.Common.{
  Bool, true, false, ◌&&◌, ◌||◌, List, [], ◌∷◌, ◌≡◌, ◌≢◌, refl, ◌∙◌, arith, ok, any_of, all_of,
  nat_eq,
}
use raksha.Common.Sets.{contains, contains-union}
use mathlib.Core.List.{foldl}
use raksha.Ir.Modules.{Operation}
use raksha.Taint.Tags.{AbstractIfcTags, bottom, tags, TagId, is_bottom, join, has_integrity}
use raksha.Taint.Semantics.{drop_integrity, apply_default_operation_transformer}

-- Bottom holds no tag.
abbrev pub holds_secrecy : AbstractIfcTags → TagId → Bool
holds_secrecy bottom t = false
holds_secrecy (tags x) t = contains x.secrecy_tags t

is_bottom-join : (a b : AbstractIfcTags) → is_bottom (join a b) ≡ (is_bottom a && is_bottom b)
unfolding join
is_bottom-join bottom b = refl
is_bottom-join (tags x) bottom = refl
is_bottom-join (tags x) (tags y) = refl

holds_secrecy-join :
    (a b : AbstractIfcTags) (t : TagId)
    → holds_secrecy (join a b) t ≡ (holds_secrecy a t || holds_secrecy b t)
unfolding join
holds_secrecy-join bottom b t = refl
holds_secrecy-join (tags x) bottom t = ground arith
holds_secrecy-join (tags x) (tags y) t = contains-union x.secrecy_tags y.secrecy_tags t

is_bottom-foldl :
    (a : AbstractIfcTags) (states : List AbstractIfcTags)
    → is_bottom (foldl join a states) ≡ (is_bottom a && all_of is_bottom states)
is_bottom-foldl a [] = ground arith
is_bottom-foldl a (s ∷ states) =
    ground (arith, is_bottom-foldl (join a s) states, is_bottom-join a s)

holds_secrecy-foldl :
    (a : AbstractIfcTags) (states : List AbstractIfcTags) (t : TagId)
    → holds_secrecy (foldl join a states) t
      ≡ (holds_secrecy a t || any_of (λ s. holds_secrecy s t) states)
holds_secrecy-foldl a [] t = ground arith
holds_secrecy-foldl a (s ∷ states) t =
    ground (arith, holds_secrecy-foldl (join a s) states t, holds_secrecy-join a s t)

drop_integrity_effect :
    (x : AbstractIfcTags) (t : TagId)
    → (is_bottom (drop_integrity x) ≡ is_bottom x)
      × (holds_secrecy (drop_integrity x) t ≡ holds_secrecy x t)
      × (has_integrity (drop_integrity x) t ≢ ok true)
unfolding drop_integrity has_integrity contains
drop_integrity_effect bottom t = (refl, refl, λ h. cc)
drop_integrity_effect (tags x) t = (refl, refl, λ h. cc)

-- With at least one input, the default result is bottom exactly if all inputs are; its secrecy tags
-- are those of the inputs; and it holds no integrity tag.
pub apply_default_operation_transformer_effect :
    (o : Operation) (s : AbstractIfcTags) (states : List AbstractIfcTags) (t : TagId)
    → let inputs = s ∷ states in
      let result = apply_default_operation_transformer o inputs in
      (is_bottom result ≡ all_of is_bottom inputs)
      × (holds_secrecy result t ≡ any_of (λ x. holds_secrecy x t) inputs)
      × (has_integrity result t ≢ ok true)
unfolding apply_default_operation_transformer
apply_default_operation_transformer_effect o s states t =
    let d = drop_integrity_effect (foldl join bottom (s ∷ states)) t in
    (
      d.0 ∙ is_bottom-foldl bottom (s ∷ states),
      d.1 ∙ holds_secrecy-foldl bottom (s ∷ states) t,
      d.2,
    )
