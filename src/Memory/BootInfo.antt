-- ===== src/Memory/BootInfo.antt =====
-- `BootInfoFrameAllocator` of min-rust-os/src/memory.rs as a `FrameAllocator`.
use os_resources.Prelude.{
  ℕ, suc, ◌+◌, ◌<◌, ◌≡◌, ok, Returns, Returns-mono, Option, List, length, arith, refl, sym, subst,
}
use os_resources.Prelude.Words.{usize_mod}
use os_resources.Memory.{Frames, BootInfoFrameAllocator, allocate_frame}
use os_resources.Memory.Addresses.{IsMemoryMap}
use os_resources.Memory.Allocation.{allocate_frames, allocate_frame-start}
use os_resources.Memory.Paging.{FrameAllocator, Calls, here, call}

module _ (fr : Frames) where
  open fr use {PhysFrame}

  -- The counter does not overflow in `n` more calls.
  abbrev pub Ready : ℕ → BootInfoFrameAllocator → Type 0
  Ready n s = IsMemoryMap s.memory_map × (s.next + n < usize_mod)

  pub allocate_frame-Ready :
      (n : ℕ) (s : BootInfoFrameAllocator)
      → Ready (suc n) s
      → Returns (λ (out, t). Ready n t) (allocate_frame fr s)
  allocate_frame-Ready n s (h, fits) =
      Returns-mono (allocate_frame-start fr s.memory_map s.next h (omega arith))
        λ (out, t) (_, e). subst (Ready n) (sym e) (h, omega arith)

  -- The interface of a frame allocator, implemented by `BootInfoFrameAllocator`.
  abbrev pub boot_info : FrameAllocator PhysFrame
  boot_info = record {
    Frames = BootInfoFrameAllocator;
    allocate_frame = allocate_frame fr;
    Ready = Ready;
    allocate_frame-Ready = allocate_frame-Ready;
  }

  pub Calls-allocate_frames :
      {s t : BootInfoFrameAllocator} {outs : List (Option PhysFrame)}
      → Calls boot_info s outs t
      → allocate_frames fr (length outs) s ≡ ok (outs, t)
  unfolding allocate_frames
  Calls-allocate_frames here = refl
  Calls-allocate_frames (call e c) = rw (e, Calls-allocate_frames c) refl
