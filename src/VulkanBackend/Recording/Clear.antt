-- ===== src/VulkanBackend/Recording/Clear.antt =====
-- The pixels of a render.
use sher_graphics.Base.{
  ℕ, zero, suc, ◌+◌, ◌*◌, ◌≡◌, refl, sym, ap, ◌∙◌, inl, inr, List, [], ◌∷◌, ◌++◌, arith, length,
}
use sher_graphics.VulkanBackend.{Ash}
use sher_graphics.VulkanBackend.Render.{Vulkan}
use sher_graphics.VulkanBackend.Recording.{
  transfer_dst_optimal, transfer_src_optimal, to_transfer_dst, to_transfer_src, pipeline_barrier,
  clear_color_image, top_of_pipe, transfer, recording, repeat, row, rows, Queue, IsConforming,
  execute_all,
}

append_assoc : (xs ys zs : List ℕ) → (xs ++ ys) ++ zs ≡ xs ++ (ys ++ zs)
append_assoc [] ys zs = refl
append_assoc (x ∷ xs) ys zs = ap (λ t. x ∷ t) (append_assoc xs ys zs)

suc_add : (m n : ℕ) → suc m + n ≡ suc (m + n)
suc_add m n = omega arith

suc_times : (n k : ℕ) → k + n * k ≡ suc n * k
suc_times n k = omega arith

repeat-add : (m n : ℕ) (bytes : List ℕ) → repeat (m + n) bytes ≡ repeat m bytes ++ repeat n bytes
repeat-add zero n bytes = grind arith
repeat-add (suc m) n bytes =
    ap (λ k. repeat k bytes) (suc_add m n)
    ∙ ap (λ t. bytes ++ t) (repeat-add m n bytes)
    ∙ sym (append_assoc bytes (repeat m bytes) (repeat n bytes))

row_plain :
    (texel : ℕ → List ℕ) (bytes : List ℕ) (n x : ℕ)
    → ((i : ℕ) → texel i ≡ bytes)
    → row texel n x ≡ repeat n bytes
row_plain texel bytes zero x h = refl
row_plain texel bytes (suc n) x h =
    rw (h x) (ap (λ t. bytes ++ t) (row_plain texel bytes n (suc x) h))

zeroes : (n : ℕ) → 0 ≡ 0 * n
zeroes n = omega arith

rows_plain :
    (texel : ℕ → ℕ → List ℕ) (bytes : List ℕ) (width n y : ℕ)
    → ((i j : ℕ) → texel i j ≡ bytes)
    → rows texel width n y ≡ repeat (n * width) bytes
rows_plain texel bytes width zero y h = ap (λ k. repeat k bytes) (zeroes width)
rows_plain texel bytes width (suc n) y h =
    rw
      (
        row_plain (λ x. texel x y) bytes width 0 (λ x. h x y),
        rows_plain texel bytes width n (suc y) h,
      )
      (sym (repeat-add width (n * width) bytes) ∙ ap (λ k. repeat k bytes) (suc_times n width))

module _ {C : Type 0} (Q : Queue C) (laws : IsConforming Q) where
  -- On a conforming queue, what is recorded fills the readback buffer with width × height texels of
  -- the clear color, whatever the image and the buffer held.
  pub recording_clears :
      (color : C) (width height : ℕ) (s : Q.State)
      → Q.buffer (execute_all Q (recording color width height) s)
        ≡ repeat (height * width) (Q.encode color)
  unfolding recording execute_all to_transfer_dst to_transfer_src
  recording_clears color width height s =
      let s1 = Q.execute (pipeline_barrier top_of_pipe transfer to_transfer_dst) s in
      let s2 = Q.execute (clear_color_image transfer_dst_optimal color) s1 in
      let s3 = Q.execute (pipeline_barrier transfer transfer to_transfer_src) s2 in
      let l1 : Q.layout s1 ≡ transfer_dst_optimal =
        laws.barrier_layout top_of_pipe transfer to_transfer_dst s (inl refl) in
      let l2 : Q.layout s2 ≡ transfer_dst_optimal = laws.clear_layout color s1 ∙ l1 in
      let l3 : Q.layout s3 ≡ transfer_src_optimal =
        laws.barrier_layout transfer transfer to_transfer_src s2 (inr (sym l2)) in
      laws.copy_buffer width height s3 l3
      ∙ rows_plain (Q.texel s3) (Q.encode color) width height 0 λ x y.
        laws.barrier_texel to_transfer_src s2 x y (sym l2) refl refl
        ∙ laws.clear_texel color s1 x y l1

-- A render whose buffer holds what a conforming queue has written there: a mapping of its length
-- shows all of it.
abbrev pub Reads : {A : Ash} {C : Type 0} (Q : Queue C) → Vulkan A → C → ℕ → ℕ → Q.State → Type 0
Reads {C} Q vk color width height s =
    let buffer = Q.buffer (execute_all Q (recording color width height) s) in
    (n : ℕ) → n ≡ length buffer → vk.mapped_bytes n ≡ buffer
