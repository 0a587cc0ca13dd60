-- ===== src/Consent/Atomic.antt =====
-- A write of the identity map, whichever call of the system fails.
use beherouter.Prelude.{
  ◌≡◌, ◌≢◌, refl, ap, ◌∙◌, ◌&&◌, Option, none, some, is_some, ◌⊎◌, inl, inr, arith, if◌then◌else◌,
}
use beherouter.Consent.Disk.{
  Toml, File, World, Ended, done, threw, cut, Op, Fault, called, handled, and_then,
}
use beherouter.Consent.Writer.{Process, fill, install, sync_dir, atomic_write, owner_of, fresh}

module _ {T : Toml} (p : Process) (t : T.Text) where
  -- The file that a write leaves: readable by its owner only, and by the same owner as before where
  -- root writes it.
  abbrev pub written : Option (File T) → File T
  written previous = record {
    text = t;
    mode = 0o600;
    owner = if is_some previous && p.is_root then owner_of previous p.user else p.user;
  }

  -- How the block under `try` leaves the world: with the new map, or with the old one and some
  -- temporary file.
  abbrev Filled : World T → Ended (Unit {0}) × World T → Type 0
  Filled w (done _, w') = w' ≡ record w { map = some (written w.map); temp = none }
  Filled w (threw e, w') = w' ≡ record w { temp = w'.temp }
  Filled w (cut, w') = w' ≡ record w { temp = w'.temp }

  fill-Filled : (w : World T) → Filled w (fill p t w.map (fresh p w))
  unfolding fill
  fill-Filled w = ground arith

  -- The same, where the temporary file of a failed write is gone unless it could not be removed.
  record IsInstalled (w : World T) (r : Ended (Unit {0}) × World T) : Type 0 where
    filled : Filled w r
    gone : p.faults Op.unlink ≡ none → r.0 ≢ cut → r.1.temp ≡ none

  abbrev removing : Ended (Unit {0}) × World T → Ended (Unit {0}) × World T
  removing = handled (called (λ u. record u { temp = none }) (p.faults Op.unlink))

  removing-IsInstalled :
      (w : World T) (x : Ended (Unit {0}) × World T) → Filled w x → IsInstalled w (removing x)
  removing-IsInstalled w (done _, w') h = record { filled = h; gone = λ _ _. ground (arith, h) }
  removing-IsInstalled w (threw e, w') h = record {
    filled = ground (arith, h);
    gone = λ k c. ground (arith, h);
  }
  removing-IsInstalled w (cut, w') h = record { filled = h; gone = λ k c. absurd (c refl) }

  -- What a write may leave: the world with the map that there was, or with the new one, whole; the new
  -- one where the write ends well; and no temporary file unless the process was killed or the file
  -- could not be removed.
  pub record IsAtomic (w : World T) (r : Ended (Unit {0}) × World T) : Type 0 where
    pub whole :
        (r.1 ≡ record w { temp = r.1.temp })
        ⊎ (r.1 ≡ record w { map = some (written w.map); temp = none })
    pub complete : r.0 ≡ done tt → r.1 ≡ record w { map = some (written w.map); temp = none }
    pub tidy : p.faults Op.unlink ≡ none → w.temp ≡ none → r.0 ≢ cut → r.1.temp ≡ none

  sync_dir-keeps : (w : World T) → (sync_dir p w).1 ≡ w
  unfolding sync_dir
  sync_dir-keeps w = ground arith

  synced-IsAtomic :
      (w : World T) (x : Ended (Unit {0}) × World T)
      → IsInstalled w x
      → IsAtomic w (and_then x (λ _. sync_dir p))
  synced-IsAtomic w (done _, w') h =
      let kept = sync_dir-keeps w' ∙ h.filled in
      record { whole = inr kept; complete = λ _. kept; tidy = λ k t c. ap (λ u. u.temp) kept }
  synced-IsAtomic w (threw e, w') h = record {
    whole = inl h.filled;
    complete = λ d. cc;
    tidy = λ k t c. h.gone k c;
  }
  synced-IsAtomic w (cut, w') h = record {
    whole = inl h.filled;
    complete = λ d. cc;
    tidy = λ k t c. absurd (c refl);
  }

  -- Whichever calls of the system fail, and wherever the process is killed, a write of the identity map
  -- leaves the file that there was or the new one, whole, with the mode 0600 and the owner that the
  -- file had if root writes it. A write that ends well leaves the new one. A temporary file stays only
  -- if the process is killed or the file cannot be removed.
  pub atomic_write-IsAtomic : (w : World T) → IsAtomic w (atomic_write p t w)
  unfolding atomic_write install
  atomic_write-IsAtomic w = started (p.faults Op.stat) (p.faults Op.mkstemp)
    where
      started :
          (s m : Option Fault)
          → IsAtomic w (
              and_then
                (and_then
                  (and_then (called (λ u. u) s w) (λ _ u. called (fresh p) m u))
                  (λ _. install p t w.map))
                (λ _. sync_dir p))
      started none none = synced-IsAtomic w _ (removing-IsInstalled w _ (fill-Filled w))
      started none (some (Fault.failing e)) = record {
        whole = inl refl;
        complete = λ d. cc;
        tidy = λ k n c. n;
      }
      started none (some Fault.killing) = record {
        whole = inl refl;
        complete = λ d. cc;
        tidy = λ k n c. n;
      }
      started (some (Fault.failing e)) m = record {
        whole = inl refl;
        complete = λ d. cc;
        tidy = λ k n c. n;
      }
      started (some Fault.killing) m = record {
        whole = inl refl;
        complete = λ d. cc;
        tidy = λ k n c. n;
      }
