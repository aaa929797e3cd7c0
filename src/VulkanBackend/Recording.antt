-- ===== src/VulkanBackend/Recording.antt =====
-- The commands that `render_clear_inner` records, and what its queue promises to do with them.
pub mod Clear
use sher_graphics.Base.{ℕ, zero, suc, ◌≡◌, ◌⊎◌, List, [], ◌∷◌, ◌++◌}

pub data ImageLayout : Type 0 where
  undefined transfer_dst_optimal transfer_src_optimal : ImageLayout

pub data AccessFlags : Type 0 where
  empty transfer_write transfer_read : AccessFlags

pub data PipelineStage : Type 0 where
  top_of_pipe transfer : PipelineStage

pub record ImageMemoryBarrier : Type 0 where
  pub old_layout : ImageLayout
  pub new_layout : ImageLayout
  pub src_access_mask : AccessFlags
  pub dst_access_mask : AccessFlags

-- The commands on the one image and the readback buffer, in a color of the type `C`.
pub data Command (C : Type 0) : Type 0 where
  pipeline_barrier : (src dst : PipelineStage) → ImageMemoryBarrier → Command C
  clear_color_image : ImageLayout → C → Command C
  copy_image_to_buffer : ImageLayout → (width height : ℕ) → Command C

unfoldable pub to_transfer_dst : ImageMemoryBarrier
to_transfer_dst = record {
  old_layout = undefined;
  new_layout = transfer_dst_optimal;
  src_access_mask = empty;
  dst_access_mask = transfer_write;
}

unfoldable pub to_transfer_src : ImageMemoryBarrier
to_transfer_src = record {
  old_layout = transfer_dst_optimal;
  new_layout = transfer_src_optimal;
  src_access_mask = transfer_write;
  dst_access_mask = transfer_read;
}

-- What the closure of `record_result` records between `begin` and `end`.
unfoldable pub recording : {C : Type 0} → C → ℕ → ℕ → List (Command C)
unfolding to_transfer_dst to_transfer_src
recording color width height =
    pipeline_barrier top_of_pipe transfer to_transfer_dst
    ∷ clear_color_image transfer_dst_optimal color
    ∷ pipeline_barrier transfer transfer to_transfer_src
    ∷ copy_image_to_buffer transfer_src_optimal width height
    ∷ []

-- `n` times the same bytes.
abbrev pub repeat : ℕ → List ℕ → List ℕ
repeat zero bytes = []
repeat (suc n) bytes = bytes ++ repeat n bytes

-- The texels of a row from `x` on, and of the rows from `y` on, without gaps.
abbrev pub row : (ℕ → List ℕ) → ℕ → ℕ → List ℕ
row texel zero x = []
row texel (suc n) x = texel x ++ row texel n (suc x)

abbrev pub rows : (ℕ → ℕ → List ℕ) → ℕ → ℕ → ℕ → List ℕ
rows texel width zero y = []
rows texel width (suc n) y = row (λ x. texel x y) width 0 ++ rows texel width n (suc y)

-- A queue with the image and the buffer, and the effect of a command on them.
pub record Queue (C : Type 0) : Type 1 where
  pub State : Type 0
  pub execute : Command C → State → State
  pub layout : State → ImageLayout
  pub texel : State → ℕ → ℕ → List ℕ
  pub buffer : State → List ℕ
  -- The bytes of a texel that is cleared to a color.
  pub encode : C → List ℕ

-- What Vulkan promises of each command that is used as it asks: a barrier leaves the old layout, or
-- an undefined one, for the new; one after a write of transfers and before a read of transfers keeps
-- what was written; a clear of an image in its layout sets every texel; and a copy of an image in its
-- layout fills the buffer with its rows.
pub record IsConforming {C : Type 0} (Q : Queue C) : Type 0 where
  pub barrier_layout :
      (src dst : PipelineStage) (b : ImageMemoryBarrier) (s : Q.State)
      → (b.old_layout ≡ undefined) ⊎ (b.old_layout ≡ Q.layout s)
      → Q.layout (Q.execute (pipeline_barrier src dst b) s) ≡ b.new_layout
  pub barrier_texel :
      (b : ImageMemoryBarrier) (s : Q.State) (x y : ℕ)
      → b.old_layout ≡ Q.layout s
      → b.src_access_mask ≡ transfer_write
      → b.dst_access_mask ≡ transfer_read
      → Q.texel (Q.execute (pipeline_barrier transfer transfer b) s) x y ≡ Q.texel s x y
  pub clear_texel :
      (c : C) (s : Q.State) (x y : ℕ)
      → Q.layout s ≡ transfer_dst_optimal
      → Q.texel (Q.execute (clear_color_image transfer_dst_optimal c) s) x y ≡ Q.encode c
  pub clear_layout :
      (c : C) (s : Q.State)
      → Q.layout (Q.execute (clear_color_image transfer_dst_optimal c) s) ≡ Q.layout s
  pub copy_buffer :
      (width height : ℕ) (s : Q.State)
      → Q.layout s ≡ transfer_src_optimal
      → Q.buffer (Q.execute (copy_image_to_buffer transfer_src_optimal width height) s)
        ≡ rows (Q.texel s) width height 0

module _ {C : Type 0} (Q : Queue C) where
  unfoldable pub execute_all : List (Command C) → Q.State → Q.State
  execute_all [] s = s
  execute_all (c ∷ cs) s = execute_all cs (Q.execute c s)
