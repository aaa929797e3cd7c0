-- ===== src/GraphicsRuntime/Objects/Size.antt =====
-- The size that `create_resource` accounts for.
use sher_graphics.Base.{ℕ, ◌≡◌, refl, ◌<◌, sym, ◌∙◌, ap, ◌+◌, arith, word, ◌↔◌, ◌*ʷ◌, subst}
use Prim.Native.Nat.{◌*◌, ◌%◌, ◌/◌}
use native.Mathlib.Nat.{mod-add-div, add-mul-mod_self_left, mod-eq_of_lt, mod-lt}
use sher_graphics.GraphicsApi.{
  image, PixelFormat, rgba8_unorm, bgra8_unorm, rgba16_float, depth32_float, ImageUsage,
}
use sher_graphics.GraphicsRuntime.Objects.{resource_size, bytes_per_pixel}

split_mul : (a b m : ℕ) → a * b ≡ a % m * b + m * (a / m * b)
split_mul a b m = sym (ap (λ x. x * b) (mod-add-div a m)) ∙ grind arith

mod-mul : (a b m : ℕ) → a % m * b % m ≡ a * b % m
mod-mul a b m =
    sym (add-mul-mod_self_left (a % m * b) m (a / m * b)) ∙ ap (λ x. x % m) (sym (split_mul a b m))

-- What the names of the formats say: the channels of a pixel, and the bits of each.
abbrev pub channels : PixelFormat → ℕ
channels rgba8_unorm = 4
channels bgra8_unorm = 4
channels rgba16_float = 4
channels depth32_float = 1

abbrev pub channel_bits : PixelFormat → ℕ
channel_bits rgba8_unorm = 8
channel_bits bgra8_unorm = 8
channel_bits rgba16_float = 16
channel_bits depth32_float = 32

pixel_bytes : (f : PixelFormat) → bytes_per_pixel f ≡ channels f * channel_bits f / 8
unfolding bytes_per_pixel
pixel_bytes rgba8_unorm = refl
pixel_bytes bgra8_unorm = refl
pixel_bytes rgba16_float = refl
pixel_bytes depth32_float = refl

wrapped :
    (w h d : ℕ) (format : PixelFormat) (usage : ImageUsage)
    → let size = resource_size (image w h d format usage) in
      let bytes = w * h * d * bytes_per_pixel format in
      (size ≡ bytes % word) × ((size ≡ bytes) ↔ (bytes < word))
unfolding resource_size
wrapped w h d format usage =
    let p = bytes_per_pixel format in
    let wraps : w *ʷ h *ʷ d *ʷ p ≡ w * h * d * p % word =
      ap (λ x. x * p % word) (mod-mul (w * h) d word) ∙ mod-mul (w * h * d) p word in
    (
      wraps,
      (
        λ e. subst (λ x. x < word) (sym wraps ∙ e) (mod-lt (w * h * d * p) (omega arith)),
        λ small. wraps ∙ mod-eq_of_lt small,
      ),
    )

-- The size of an image is the product of its extents and the bytes of a pixel, modulo 2 ^ 64; so it is
-- that product exactly if the product is below 2 ^ 64. The bytes of a pixel are those of its channels.
pub image_size :
    (w h d : ℕ) (format : PixelFormat) (usage : ImageUsage)
    → let size = resource_size (image w h d format usage) in
      let bytes = w * h * d * (channels format * channel_bits format / 8) in
      (size ≡ bytes % word) × ((size ≡ bytes) ↔ (bytes < word))
image_size w h d format usage = rw (sym (pixel_bytes format)) (wrapped w h d format usage)
