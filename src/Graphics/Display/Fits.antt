-- ===== src/Graphics/Display/Fits.antt =====
-- A resolution that `setScreenResolutionGated`
-- (MacHyperVSupport/Graphics/HyperVGraphicsPrivate.cpp) sets fits the video memory.
use native.Mathlib.Nat.{mul-le-mul}
use mac_hyper_vsupport.Transfer.{IoReturn, success, bad_argument, no_memory}
use mac_hyper_vsupport.Network.Buffers.{is_success}
use mac_hyper_vsupport.Graphics.Dirty.{
  Screen, init_dirty_tracking, cleanup_dirty_tracking, mark_full_screen_dirty,
}
use mac_hyper_vsupport.Graphics.Display.{
  Display, graphics_version_3_0, graphics_version_3_2, graphics_version_3_5, get_screen_depth,
  max_resolution, exceeds, set_screen_resolution,
}
use mac_hyper_vsupport.Common.{
  ℕ, ◌*◌, ◌/◌, ◌%◌, ◌^◌, ◌≤◌, ◌≡◌, refl, sym, ap, ◌∙◌, arith, Bool, true, false, ◌||◌, not, ◌==◌,
  ltb, if◌then◌else◌, mul32, ◌⊎◌, inl, inr, Bool-cases, subst, ltb_false→le,
}
use mathlib.Core.Bool.{false≢true}

-- One of the versions that the driver negotiates.
abbrev pub IsKnown : ℕ → Type 0
IsKnown version =
    (version ≡ graphics_version_3_0)
    ⊎ ((version ≡ graphics_version_3_2) ⊎ (version ≡ graphics_version_3_5))

-- The screen has the size asked for, in the bounds; its frame fits the memory, counted without
-- wrapping.
unfoldable pub IsShown : ℕ → ℕ → Display → Type 0
IsShown width height d =
    (640 ≤ width)
    × (480 ≤ height)
    × (width ≤ 7680)
    × (height ≤ 4320)
    × (width * height * (get_screen_depth d / 8) ≤ d.gfx_length)
    × (d.screen.screen_width ≡ width)
    × (d.screen.screen_height ≡ height)

-- The checks in the order of the code: each that fails leaves the display.
guarded :
    (b : Bool) (status : IoReturn) (d : Display) (rest : IoReturn × Display)
    → is_success status ≡ false
    → is_success (if b then (status, d) else rest).0 ≡ true
    → (b ≡ false) × ((if b then (status, d) else rest) ≡ rest)
guarded true status d rest bad ok = absurd (false≢true (sym bad ∙ ok))
guarded false status d rest bad ok = (refl, refl)

both_above :
    (m n width height : ℕ) → (ltb width m || ltb height n) ≡ false → (m ≤ width) × (n ≤ height)
both_above m n width height h = ground arith

both_within :
    (m n width height : ℕ) → (ltb m width || ltb n height) ≡ false → (width ≤ m) × (height ≤ n)
both_within m n width height h = ground arith

within :
    (version width height : ℕ)
    → IsKnown version
    → exceeds (max_resolution version) width height ≡ false
    → (width ≤ 7680) × (height ≤ 4320)
unfolding max_resolution
within version width height (inl e) h =
    let (p, q) = both_within 1600 1200 width height (rw e at h) in (omega arith, omega arith)
within version width height (inr (inl e)) h =
    let (p, q) = both_within 3840 2160 width height (rw e at h) in (omega arith, omega arith)
within version width height (inr (inr e)) h = both_within 7680 4320 width height (rw e at h)

-- The frame's size does not wrap.
frame_size :
    (width height depth len : ℕ)
    → width ≤ 7680
    → height ≤ 4320
    → depth ≤ 4
    → mul32 (mul32 width height) depth ≤ len
    → width * height * depth ≤ len
frame_size width height depth len a b c h =
    let area : width * height ≤ 7680 * 4320 = mul-le-mul a b in
    let bytes : width * height * depth ≤ 7680 * 4320 * 4 = mul-le-mul area c in
    let exact : mul32 width height ≡ width * height = omega (arith, area) in
    let small : width * height * depth % 2 ^ 32 ≤ len = rw exact at h in omega (arith, small, bytes)

depth_le : (b : Bool) → (if b then 16 else 32) / 8 ≤ 4
depth_le true = omega arith
depth_le false = omega arith

get_screen_depth-le : (d : Display) → get_screen_depth d / 8 ≤ 4
unfolding get_screen_depth
get_screen_depth-le d = depth_le (d.gfx_version == graphics_version_3_0)

init_keeps_size :
    (memory : Bool) (s : Screen)
    → ((init_dirty_tracking memory s).screen_width ≡ s.screen_width)
      × ((init_dirty_tracking memory s).screen_height ≡ s.screen_height)
unfolding init_dirty_tracking mark_full_screen_dirty
init_keeps_size true s = elim (Bool-cases (s.screen_width == 0 || s.screen_height == 0)) [
  | inl e ↦ rw e (refl, refl)
  | inr e ↦ rw e (refl, refl)
]
init_keeps_size false s = elim (Bool-cases (s.screen_width == 0 || s.screen_height == 0)) [
  | inl e ↦ rw e (refl, refl)
  | inr e ↦ rw e (refl, refl)
]

sent_with_success :
    (status : IoReturn) (d : Display) (shown : IoReturn × Display)
    → is_success (if not (is_success status) then (status, d) else shown).0 ≡ true
    → (if not (is_success status) then (status, d) else shown) ≡ shown
sent_with_success status d shown ok = elim (Bool-cases (is_success status)) [
  | inl e ↦ rw e refl
  | inr e ↦
      let stopped : (if not (is_success status) then (status, d) else shown) ≡ (status, d) =
        rw e refl in
      absurd (false≢true (sym e ∙ sym (ap (λ r. is_success r.0) stopped) ∙ ok))
]

-- If the resolution is set, with one of the three versions that the driver negotiates, it is from
-- 640 by 480 to 7680 by 4320, its frame fits the video memory counted without wrapping, and the
-- screen has that size.
pub set_screen_resolution-IsShown :
    (width height : ℕ) (status : IoReturn) (memory : Bool) (d : Display)
    → IsKnown d.gfx_version
    → is_success (set_screen_resolution width height status memory d).0 ≡ true
    → IsShown width height (set_screen_resolution width height status memory d).1
unfolding set_screen_resolution IsShown cleanup_dirty_tracking get_screen_depth
set_screen_resolution-IsShown width height status memory d known ok =
    let required = mul32 (mul32 width height) (get_screen_depth d / 8) in
    let sized : Screen = record d.screen { screen_width = width; screen_height = height } in
    let shown : IoReturn × Display =
      (success, record d { screen = init_dirty_tracking memory (cleanup_dirty_tracking sized) }) in
    let sent = if not (is_success status) then (status, d) else shown in
    let fitting = if ltb d.gfx_length required then (no_memory, d) else sent in
    let large = if ltb width 640 || ltb height 480 then (bad_argument, d) else fitting in
    let (e₀, r₀) =
      guarded (exceeds (max_resolution d.gfx_version) width height) bad_argument d large refl ok in
    let ok₁ = sym (ap (λ r. is_success r.0) r₀) ∙ ok in
    let (e₁, r₁) = guarded (ltb width 640 || ltb height 480) bad_argument d fitting refl ok₁ in
    let ok₂ = sym (ap (λ r. is_success r.0) r₁) ∙ ok₁ in
    let (e₂, r₂) = guarded (ltb d.gfx_length required) no_memory d sent refl ok₂ in
    let ok₃ = sym (ap (λ r. is_success r.0) r₂) ∙ ok₂ in
    let inside = within d.gfx_version width height known e₀ in
    let (small_width, small_height) = both_above 640 480 width height e₁ in
    let fits : width * height * (get_screen_depth d / 8) ≤ d.gfx_length =
      frame_size width height (get_screen_depth d / 8) d.gfx_length inside.0 inside.1
        (get_screen_depth-le d) (ltb_false→le d.gfx_length required e₂) in
    let sizes = init_keeps_size memory (cleanup_dirty_tracking sized) in
    subst (λ r. IsShown width height r.1)
      (sym (r₀ ∙ r₁ ∙ r₂ ∙ sent_with_success status d shown ok₃))
      (small_width, small_height, inside.0, inside.1, fits, sizes.0, sizes.1)
