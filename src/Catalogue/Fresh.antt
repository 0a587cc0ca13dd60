-- ===== src/Catalogue/Fresh.antt =====
-- Calls that come at any time, while a backend is asked for its tools and while it is not.
use beherouter.Prelude.{
  ℕ, ◌+◌, ◌-◌, ◌≤◌, String, ◌≡◌, refl, ◌∙◌, Bool, true, false, Option, none, some, List, [], ◌∷◌,
  Dict, select, arith, ◌==◌, if◌then◌else◌,
}
use beherouter.Models.{ToolDescriptor}
use beherouter.Catalogue.{
  Catalogue, Status, new_catalogue, begin, listed, lost, dropped, get_by_name, get_index, named,
  names, ttl,
}

pub data Event : Type 0 where
  asked : ℕ → Event
  replied : List ToolDescriptor → ℕ → Event
  failed : ℕ → Event
  abandoned : Event
  read_names : Event
  read_index : Event

-- A catalogue with what goes on around it: how many times the backend is being asked, and what it
-- listed last (at first, when it was attached).
pub record System (Index : Type 0) : Type 0 where
  pub catalogue : Catalogue Index
  pub in_flight : ℕ
  pub latest : List ToolDescriptor

module _ {Index : Type 0} (build : List ToolDescriptor → Index) where
  abbrev ask : System Index → Bool × Catalogue Index → System Index
  ask s (true, c) = record s { catalogue = c; in_flight = s.in_flight + 1 }
  ask s (false, c) = record s { catalogue = c }

  -- An end of a re-list comes only where one is in flight.
  abbrev end : System Index → Catalogue Index → List ToolDescriptor → System Index
  end s c ds =
      if s.in_flight == 0
      then s
      else record { catalogue = c; in_flight = s.in_flight - 1; latest = ds }

  pub step : Event → System Index → System Index
  unfolding begin listed lost dropped get_by_name get_index
  step (asked now) s = ask s (begin now s.catalogue)
  step (replied ds now) s = end s (listed ds now s.catalogue) ds
  step (failed now) s = end s (lost now s.catalogue) s.latest
  step abandoned s = end s (dropped s.catalogue) s.latest
  step read_names s = record s { catalogue = (get_by_name s.catalogue).1 }
  step read_index s = record s { catalogue = (get_index build s.catalogue).1 }

  pub steps : List Event → System Index → System Index
  steps [] s = s
  steps (e ∷ es) s = steps es (step e s)

  abbrev pub attached : List ToolDescriptor → Bool → Option ℕ → ℕ → System Index
  attached ds relists ttl_ms now = record {
    catalogue = new_catalogue ds relists ttl_ms now;
    in_flight = 0;
    latest = ds;
  }

  -- The backend is asked at most once at a time; what is served is what it listed last; the caches
  -- agree with it; and the pinned names are those of the attachment.
  pub record IsSound (pins : List String) (s : System Index) : Type 0 where
    pub single : s.in_flight ≤ 1
    pub flagged : s.catalogue.refreshing ≡ (s.in_flight == 1)
    pub serves : s.catalogue.descriptors ≡ s.latest
    pub indexed : (i : Index) → s.catalogue.index ≡ some i → i ≡ build s.catalogue.descriptors
    pub looked_up :
        (m : Dict ToolDescriptor)
        → s.catalogue.by_name ≡ some m
        → m ≡ named s.catalogue.descriptors []
    pub pinned : s.catalogue.pinned_names ≡ pins

  attached-IsSound :
      (ds : List ToolDescriptor) (relists : Bool) (ttl_ms : Option ℕ) (now : ℕ)
      → IsSound (names (select (λ d. d.pinned) ds)) (attached ds relists ttl_ms now)
  unfolding new_catalogue
  attached-IsSound ds relists ttl_ms now = record {
    single = omega arith;
    flagged = refl;
    serves = refl;
    indexed = λ i e. cc;
    looked_up = λ m e. cc;
    pinned = refl;
  }

  step-IsSound :
      (pins : List String) (e : Event) (s : System Index) → IsSound pins s → IsSound pins (step e s)
  unfolding step begin listed lost dropped get_by_name get_index
  step-IsSound pins e s h = record {
    single = ground (arith, h.single, h.flagged);
    flagged = ground (arith, h.single, h.flagged);
    serves = ground (arith, h.serves);
    indexed = λ i q. ground (arith, h.indexed i);
    looked_up = λ m q. ground (arith, h.looked_up m);
    pinned = ground (arith, h.pinned);
  }

  sound :
      (pins : List String) (es : List Event) (s : System Index)
      → IsSound pins s
      → IsSound pins (steps es s)
  unfolding steps
  sound pins [] s h = h
  sound pins (e ∷ es) s h = sound pins es (step e s) (step-IsSound pins e s h)

  -- Whatever calls come, and however the re-lists end, at any times: the backend is asked at most once
  -- at a time, what is served is what it listed last, the cached index and names are those of what is
  -- served, and the pinned names stay those of the attachment.
  pub steps-IsSound :
      (ds : List ToolDescriptor) (relists : Bool) (ttl_ms : Option ℕ) (now : ℕ) (es : List Event)
      → IsSound (names (select (λ d. d.pinned) ds)) (steps es (attached ds relists ttl_ms now))
  steps-IsSound ds relists ttl_ms now es = sound _ es _ (attached-IsSound ds relists ttl_ms now)

  idle_step :
      (e : Event) (s : System Index)
      → ttl s.catalogue.relists s.catalogue.ttl_ms ≡ none
      → s.in_flight ≡ 0
      → let s' = step e s in
        (ttl s'.catalogue.relists s'.catalogue.ttl_ms ≡ none)
        × (s'.in_flight ≡ 0)
        × (s'.catalogue.descriptors ≡ s.catalogue.descriptors)
        × (s'.catalogue.status ≡ s.catalogue.status)
  unfolding step begin get_by_name get_index
  idle_step e s t f = (ground arith, ground arith, ground arith, ground arith)

  idle_steps :
      (es : List Event) (s : System Index)
      → ttl s.catalogue.relists s.catalogue.ttl_ms ≡ none
      → s.in_flight ≡ 0
      → ((steps es s).in_flight ≡ 0)
        × ((steps es s).catalogue.descriptors ≡ s.catalogue.descriptors)
        × ((steps es s).catalogue.status ≡ s.catalogue.status)
  unfolding steps
  idle_steps [] s t f = (f, refl, refl)
  idle_steps (e ∷ es) s t f =
      let (t', f', d, st) = idle_step e s t f in
      let (f'', d', st') = idle_steps es (step e s) t' f' in (f'', d' ∙ d, st' ∙ st)

  -- A backend that cannot list its tools again, or whose time to live is absent or 0, is never asked:
  -- what was attached is served for ever, with the status that claims nothing.
  pub steps_inert :
      (ds : List ToolDescriptor) (relists : Bool) (ttl_ms : Option ℕ) (now : ℕ) (es : List Event)
      → ttl relists ttl_ms ≡ none
      → let s = steps es (attached ds relists ttl_ms now) in
        (s.in_flight ≡ 0) × (s.catalogue.descriptors ≡ ds) × (s.catalogue.status ≡ Status.nothing)
  unfolding new_catalogue
  steps_inert ds relists ttl_ms now es t =
      let (f, d, st) = idle_steps es (attached ds relists ttl_ms now) t refl in
      (f, d, st ∙ rw t refl)
