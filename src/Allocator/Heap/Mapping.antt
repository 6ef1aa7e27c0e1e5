-- ===== src/Allocator/Heap/Mapping.antt =====
-- What `init_heap` of min-rust-os/src/allocator.rs maps.
use os_resources.Prelude.{
  ℕ, suc, ◌+◌, ◌*◌, ◌≤◌, ◌<◌, ◌≡◌, ◌==◌, if◌then◌else◌, Result, ok, ◌>>=◌, Returns, length-append,
  Returns-ok, Returns-bind, Returns-mono, Option, none, some, List, [], ◌∷◌, ◌++◌, length, arith,
  refl, sym, ap, subst, ◌∙◌,
}
use os_resources.Memory.{page_size}
use os_resources.Allocator.FixedSizeBlock.{Fallback}
use os_resources.Memory.Paging.{StartAt, Pages, FrameAllocator, Calls, here, call, Mapper}
use os_resources.Allocator.Heap.{map_page, Machine, map_pages}
use os_resources.Allocator.Heap.Maps.{
  Chosen, none_chosen, skip, choose, Chosen-later, Chosen-none, Calls-append, Maps, Maps-first,
  Maps-nothing,
}

module _ {PhysFrame : Type 0} (f : Fallback) (p : Pages) (fa : FrameAllocator PhysFrame)
    (mp : Mapper p fa) where
  open p use {Page, start}
  open fa use {Frames, Ready}
  open mp use {Tables, MapToError, present_writable, mapped}

  -- What the loop over pages from `a` on leaves: some pages are mapped, all of them if there is no
  -- error, to frames that the allocator gave in this order.
  pub record Mapping (a : ℕ) (pages : List Page) (s : Machine f p fa mp) (out : Option MapToError)
      (s' : Machine f p fa mp) : Type 0 where
    pub frames : List PhysFrame
    pub outs : List (Option PhysFrame)
    pub maps : Maps mp a s.tables s'.tables frames
    pub calls : Calls fa s.frames outs s'.frames
    pub chosen : Chosen frames outs
    pub part : (error : MapToError) → out ≡ some error → length frames < length pages
    pub all : out ≡ none → length frames ≡ length pages
    pub few : length outs ≤ length pages * 4
    pub allocator : s'.allocator ≡ s.allocator

  -- What mapping one page leaves.
  record MappedPage (n a : ℕ) (frame : PhysFrame) (s : Machine f p fa mp) (out : Option MapToError)
      (s' : Machine f p fa mp) : Type 0 where
    ready : Ready n s'.frames
    outs : List (Option PhysFrame)
    calls : Calls fa s.frames outs s'.frames
    few : length outs ≤ 3
    allocator : s'.allocator ≡ s.allocator
    done :
        out ≡ none
        → (q : ℕ)
        → mapped s'.tables q
          ≡ (if q == a then some (frame, present_writable) else mapped s.tables q)
    failed :
        (error : MapToError) → out ≡ some error → (q : ℕ) → mapped s'.tables q ≡ mapped s.tables q

  -- The call of `map_to` makes no error, or it ends with one.
  mapped_page :
      (n a : ℕ) (frame : PhysFrame) (s : Machine f p fa mp) (out : Option MapToError) (t : Tables)
      (fr : Frames)
      → Ready n fr
      → (outs : List (Option PhysFrame)) → length outs ≤ 3
      → Calls fa s.frames outs fr
      → ((q : ℕ)
          → mapped t q ≡ (elim out [
            | none ↦ if q == a then some (frame, present_writable) else mapped s.tables q
            | some error ↦ mapped s.tables q
          ]))
      → MappedPage n a frame s out (record s { tables = t; frames = fr })
  mapped_page n a frame s none t fr ready outs few calls same = record {
    ready = ready;
    outs = outs;
    calls = calls;
    few = few;
    allocator = refl;
    done = λ e. same;
    failed = λ error e. cc e;
  }
  mapped_page n a frame s (some error) t fr ready outs few calls same = record {
    ready = ready;
    outs = outs;
    calls = calls;
    few = few;
    allocator = refl;
    done = λ e. cc e;
    failed = λ error' e. same;
  }

  map_page-MappedPage :
      (n : ℕ) (page : Page) (frame : PhysFrame) (s : Machine f p fa mp)
      → Ready (n + 3) s.frames
      → Returns
          (λ (out, s'). MappedPage n (start page) frame s out s')
          (map_page f p fa mp page frame s)
  unfolding map_page
  map_page-MappedPage n page frame s ready =
      Returns-bind (mp.map_to-mapped n page frame present_writable s.tables s.frames ready)
        λ (out, (t, fr)) (left, (outs, few, calls), same).
          Returns-ok (out, record s { tables = t; frames = fr })
            (mapped_page n (start page) frame s out t fr left outs few calls same)

  -- A round of the loop, where the rest of the loop leaves what it should.
  module _ (pages : List Page) (page : Page) (s : Machine f p fa mp) (fr : Frames)
      (rest : (s' : Machine f p fa mp)
        → Ready (length pages * 4) s'.frames
        → Returns
            (λ (out, s''). Mapping (start page + page_size) pages s' out s'')
            (map_pages f p fa mp pages s')) where
    abbrev round : Option PhysFrame → Result (Option MapToError × Machine f p fa mp)
    round found = elim found [
      | none ↦ ok (some mp.frame_allocation_failed, record s { frames = fr })
      | some frame ↦ do
        (failed, s') ← map_page f p fa mp page frame (record s { frames = fr })
        elim failed [ some error ↦ ok (some error, s') | none ↦ map_pages f p fa mp pages s' ]
    ]

    page-Mapping :
        (frame : PhysFrame) (out : Option MapToError) (s' : Machine f p fa mp)
        → fa.allocate_frame s.frames ≡ ok (some frame, fr)
        → MappedPage (length pages * 4) (start page) frame (record s { frames = fr }) out s'
        → Returns
            (λ (o, s''). Mapping (start page) (page ∷ pages) s o s'')
            (elim out [ some error ↦ ok (some error, s') | none ↦ map_pages f p fa mp pages s' ])
    page-Mapping frame none s' gives one = Returns-mono (rest s' one.ready) λ (o, s'') more.
        record {
          frames = frame ∷ more.frames;
          outs = some frame ∷ (one.outs ++ more.outs);
          maps =
              Maps-first mp (start page) s.tables s'.tables s''.tables frame more.frames
                (one.done refl) more.maps;
          calls = call gives (Calls-append one.calls more.calls);
          chosen = choose frame (Chosen-later one.outs more.chosen);
          part = λ error e. omega (arith, more.part error e);
          all = λ e. ap suc (more.all e);
          few = omega (arith, length-append one.outs more.outs, one.few, more.few);
          allocator = more.allocator ∙ one.allocator;
        }
    page-Mapping frame (some error) s' gives one =
        Returns-ok (some error, s')
          (record {
            frames = [];
            outs = some frame ∷ one.outs;
            maps = Maps-nothing mp (start page) s.tables s'.tables (one.failed error refl);
            calls = call gives one.calls;
            chosen = Chosen-none (some frame ∷ one.outs);
            part = λ e' e. omega arith;
            all = λ e. cc e;
            few = omega (arith, one.few);
            allocator = one.allocator;
          })

    round-Mapping :
        (found : Option PhysFrame)
        → fa.allocate_frame s.frames ≡ ok (found, fr)
        → Ready (length pages * 4 + 3) fr
        → Returns (λ (o, s'). Mapping (start page) (page ∷ pages) s o s') (round found)
    round-Mapping none gives ready =
        Returns-ok (some mp.frame_allocation_failed, record s { frames = fr })
          (record {
            frames = [];
            outs = none ∷ [];
            maps = Maps-nothing mp (start page) s.tables s.tables (λ q. refl);
            calls = call gives here;
            chosen = skip none none_chosen;
            part = λ e' e. omega arith;
            all = λ e. cc e;
            few = omega arith;
            allocator = refl;
          })
    round-Mapping (some frame) gives ready =
        Returns-bind
          (map_page-MappedPage (length pages * 4) page frame (record s { frames = fr }) ready)
          λ (out, s') one. page-Mapping frame out s' gives one

  pub map_pages-Mapping :
      (pages : List Page) (a : ℕ) (s : Machine f p fa mp)
      → StartAt start a pages
      → Ready (length pages * 4) s.frames
      → Returns (λ (out, s'). Mapping a pages s out s') (map_pages f p fa mp pages s)
  unfolding map_pages
  map_pages-Mapping [] a s at ready =
      Returns-ok (none, s)
        (record {
          frames = [];
          outs = [];
          maps = Maps-nothing mp a s.tables s.tables (λ q. refl);
          calls = here;
          chosen = none_chosen;
          part = λ e' e. cc e;
          all = λ e. refl;
          few = omega arith;
          allocator = refl;
        })
  map_pages-Mapping (page ∷ pages) a s (same, at) ready =
      let count : suc (length pages) * 4 ≡ suc (length pages * 4 + 3) = omega arith in
      let first =
        fa.allocate_frame-Ready (length pages * 4 + 3) s.frames
          (subst (λ n. Ready n s.frames) count ready) in
      let (found, fr) = first.value in
      rw (first.returns, sym same)
        (round-Mapping pages page s fr
          (λ s' h. map_pages-Mapping pages (start page + page_size) s' (rw same at) h) found
          first.returns first.holds)
