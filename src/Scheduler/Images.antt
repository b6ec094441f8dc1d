-- ===== src/Scheduler/Images.antt =====
-- Image patterns: the worker's own check `image_allowed` of nexus/runtime/capacity.py, and the gate
-- on `supported_images` that the master applies in nexus/scheduler/fitness.py.
pub mod Agreement
use Prim.Native.Char.{code}
use nexus_grid_grid.Prelude.{
  Bool, true, false, not, ◌&&◌, ◌||◌, List, [], ◌∷◌, map, String, select, any, is_empty,
  if◌then◌else◌, ◌==◌, nat_eq, text_key,
}
use nexus_grid_grid.Prelude.Text.{strip, is_blank}

-- `s.startswith(p)`
unfoldable pub starts_with : String → String → Bool
starts_with s String.[] = true
starts_with String.[] (String.◌∷◌ d p) = false
starts_with (String.◌∷◌ c s) (String.◌∷◌ d p) = code c == code d && starts_with s p

-- `p.endswith("*")`
unfoldable pub ends_star : String → Bool
ends_star String.[] = false
ends_star (String.◌∷◌ c String.[]) = code c == b'*'
ends_star (String.◌∷◌ c (String.◌∷◌ d s)) = ends_star (String.◌∷◌ d s)

-- `p[:-1]`
unfoldable pub drop_last : String → String
drop_last String.[] = String.[]
drop_last (String.◌∷◌ c String.[]) = String.[]
drop_last (String.◌∷◌ c (String.◌∷◌ d s)) = String.◌∷◌ c (drop_last (String.◌∷◌ d s))

-- `normalize_list_field` on a list.
unfoldable pub normalize_list_field : List String → List String
normalize_list_field items = select (λ w. not (is_blank w)) (map strip items)

-- The loop of `image_allowed`, for a stripped image.
unfoldable pub allowed_by : List String → String → Bool
allowed_by [] image = false
allowed_by (pattern ∷ rest) image =
    let later = allowed_by rest image in
    let p = strip pattern in
    if is_blank p
    then later
    else if ends_star p && starts_with image (drop_last p)
    then true
    else if image == p
    then true
    else later

unfoldable pub image_allowed : List String → String → Bool
unfolding allowed_by
image_allowed allowed_images text =
    let image = strip text in
    if is_blank image
    then false
    else if is_empty allowed_images
    then false
    else allowed_by allowed_images image

-- One pattern of the worker's advertisement, as the master reads it.
unfoldable pub fits_pattern : String → String → Bool
fits_pattern required p = required == p || (ends_star p && starts_with required (drop_last p))

-- The master's gate lets the task through.
unfoldable pub image_gate : String → List String → Bool
unfolding fits_pattern
image_gate required supported = not (
    not (is_blank required)
    && not (is_empty supported)
    && not (any (fits_pattern required) supported))
