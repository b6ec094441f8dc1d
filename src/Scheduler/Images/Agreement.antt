-- ===== src/Scheduler/Images/Agreement.antt =====
-- The master's gate against the worker's own check.
use nexus_grid_grid.Prelude.{
  not, ◌&&◌, ◌≡◌, refl, List, [], ◌∷◌, String, any, is_empty, text_key, arith,
}
use nexus_grid_grid.Prelude.Text.{strip, is_blank}
use nexus_grid_grid.Scheduler.Images.{
  normalize_list_field, allowed_by, image_allowed, fits_pattern, image_gate,
}

allowed_by-normalize :
    (patterns : List String) (image : String)
    → allowed_by patterns image ≡ any (fits_pattern image) (normalize_list_field patterns)
unfolding allowed_by normalize_list_field fits_pattern
allowed_by-normalize [] image = refl
allowed_by-normalize (p ∷ ps) image = ground (arith, allowed_by-normalize ps image)

normalize-nil : normalize_list_field [] ≡ []
unfolding normalize_list_field
normalize-nil = refl

-- The worker accepts an image exactly when the master's gate lets it through on the worker's
-- advertised list, and neither the image nor that list is empty. So on an empty list, or for a task
-- that names no image, the gate is open though the worker refuses.
pub image_allowed-gate :
    (allowed_images : List String) (image : String)
    → image_allowed allowed_images image ≡ (
        not (is_blank (strip image))
        && not (is_empty (normalize_list_field allowed_images))
        && image_gate (strip image) (normalize_list_field allowed_images))
unfolding image_allowed image_gate
image_allowed-gate [] image = ground (arith, normalize-nil)
image_allowed-gate (p ∷ ps) image = ground (arith, allowed_by-normalize (p ∷ ps) (strip image))
