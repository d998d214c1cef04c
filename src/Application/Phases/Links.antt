-- ===== src/Application/Phases/Links.antt =====
-- The check that the video of a tag or of a label is selected.
use Prim.Native.String.{◌++◌ as str_append}
use pipeline_server.Prelude.{String, ◌≡◌, refl, Bool, true, false, not, List, ◌∷◌}
use pipeline_server.Prelude.Int.{ℤ, str_int}
use pipeline_server.Effects.{Action, pure}
use pipeline_server.Effects.Returns.{Returns, Returns-pure, Returns-bind, Returns-if}
use pipeline_server.Domain.Enums.{Stage, odd_tagging, auto_labeling, object_class_value}
use pipeline_server.Domain.Models.{OddTag, Label}
use pipeline_server.Domain.Ports.{Clock}
use pipeline_server.Application.Phases.{
  Refined, all_rejected, rejected, refined, is_linked, is_unlinked, unlinked, link_odd_tag,
  refine_odd_tag, link_label, refine_label,
}

-- An item that has passed is of a selected video.
abbrev pub Linked : {Item : Type 0} → (Item → ℤ) → List ℤ → Refined Item → Type 0
Linked video_id ids (refined item) = is_linked (video_id item) ids ≡ true
Linked video_id ids _ = Unit

module _ {S : Type 0} (clock : Clock S) (task_id : String) (id : ℤ) (ids : List ℤ) where
  was_linked : (b : Bool) → not b ≡ false → b ≡ true
  was_linked true h = refl
  was_linked false h = cc

  unlinked-Linked :
      {Item : Type 0} (video_id : Item → ℤ) (stage : Stage) (n : ℤ) (source_id : String)
      → Returns
          (Linked video_id (id ∷ ids))
          (unlinked clock {Item = Item} task_id stage n source_id)
  unfolding unlinked
  unlinked-Linked video_id stage n source_id =
      Returns-bind _ _ (λ t. Returns-bind _ _ (λ r. Returns-pure _ tt))

  link_odd_tag-Linked :
      (result : Refined OddTag)
      → Returns
          (Linked (λ tag. tag.video_id.value) (id ∷ ids))
          (link_odd_tag clock task_id (id ∷ ids) result)
  unfolding link_odd_tag
  link_odd_tag-Linked (refined tag) =
      Returns-if (is_unlinked tag.video_id.value (id ∷ ids))
        (unlinked clock task_id odd_tagging tag.video_id.value (str_int tag.video_id.value))
        (pure (refined tag)) (λ _. unlinked-Linked (λ x. x.video_id.value) _ _ _)
        (λ h. Returns-pure (refined tag) (was_linked (is_linked tag.video_id.value (id ∷ ids)) h))
  link_odd_tag-Linked (rejected r) = Returns-pure _ tt
  link_odd_tag-Linked (all_rejected rs) = Returns-pure _ tt

  link_label-Linked :
      {F : Type 0} (result : Refined (Label F))
      → Returns
          (Linked (λ label. label.video_id.value) (id ∷ ids))
          (link_label clock task_id (id ∷ ids) result)
  unfolding link_label
  link_label-Linked (refined label) =
      Returns-if (is_unlinked label.video_id.value (id ∷ ids))
        (unlinked clock task_id auto_labeling label.video_id.value (
          str_append (str_int label.video_id.value)
            (str_append ":" (object_class_value label.object_class))))
        (pure (refined label)) (λ _. unlinked-Linked (λ x. x.video_id.value) _ _ _)
        (λ h.
          Returns-pure (refined label) (was_linked (is_linked label.video_id.value (id ∷ ids)) h))
  link_label-Linked (rejected r) = Returns-pure _ tt
  link_label-Linked (all_rejected rs) = Returns-pure _ tt

-- Whatever a refiner gives of a row, over a set of selected ids that is not empty a tag or a label
-- that passes is of a selected video, if the check returns.
pub refine-Linked :
    {S F Row : Type 0} (clock : Clock S) (task_id : String) (row : Row) (id : ℤ) (ids : List ℤ)
    (tags : String → Row → Action S (Refined OddTag))
    (labels : String → Row → Action S (Refined (Label F)))
    → Returns
        (Linked (λ tag. tag.video_id.value) (id ∷ ids))
        (refine_odd_tag clock tags task_id row (id ∷ ids))
      × Returns
          (Linked (λ label. label.video_id.value) (id ∷ ids))
          (refine_label clock labels task_id row (id ∷ ids))
unfolding refine_odd_tag refine_label
refine-Linked clock task_id row id ids tags labels = (
  Returns-bind _ _ (λ result. link_odd_tag-Linked clock task_id id ids result),
  Returns-bind _ _ (λ result. link_label-Linked clock task_id id ids result),
)
