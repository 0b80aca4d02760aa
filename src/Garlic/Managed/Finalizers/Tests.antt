-- ===== src/Garlic/Managed/Finalizers/Tests.antt =====
-- The theorem on the finalizers of cleanup.go at a concrete history.
use onramp.Prelude.{◌≡◌, ◌≢◌, refl, inl, inr, none, some, [], ◌∷◌, arith}
use onramp.Garlic.{Outside}
use onramp.Garlic.Closing.{no_bridge}
use onramp.Garlic.Closing.Laws.{all_close}
use onramp.Garlic.Managed.{started, remove, new_instance}
use onramp.Garlic.Managed.Invariant.{IsIn}
use onramp.Garlic.Managed.Finalizers.{
  Heap, IsReferenced, close_in, new_in, has_finalizer, setup_finalizer, enable_auto_cleanup,
  disable_auto_cleanup,
}
use onramp.Garlic.Managed.Finalizers.Laws.{
  Reach, here, next, makes, closes, others, finalizer_after_close,
}
use onramp.Garlic.Managed.Finalizers.Twice.{enable_after_new}

abbrev friendly : Outside
friendly = record { answer = λ r. none; keys = inr "me.b32.i2p"; random = inr 7 }

abbrev empty : Heap
empty = record { world = started; finalizers = []; held = []; closed = [] }

-- An instance is made and closed, and then the application lets go of it.
abbrev made : Heap
made = record {
  world = (new_instance friendly no_bridge started).1;
  finalizers = 0 ∷ [];
  held = 0 ∷ [];
  closed = [];
}

abbrev after_close : Heap
after_close = close_in all_close 0 made

abbrev dropped : Heap
dropped = record after_close { held = [] }

made_lem : new_in friendly no_bridge empty ≡ some (inr 0, made)
unfolding new_in setup_finalizer has_finalizer new_instance
made_lem = refl

history : Reach empty dropped
history =
    next
      (next (next here (makes friendly no_bridge empty made (inr 0) made_lem))
        (closes all_close 0 made))
      (others after_close dropped refl refl refl)

unreferenced : ¬ IsReferenced 0 dropped
unfolding new_in close_in remove
unreferenced (inl r) = r
unreferenced (inr (inl (inl (k, e)))) = ground arith
unreferenced (inr (inl (inr e))) = ground arith
unreferenced (inr (inr h)) = h

finalizer_after_close_example : IsIn 0 dropped.closed
unfolding new_in close_in
finalizer_after_close_example =
    finalizer_after_close empty dropped 0 refl history (inl refl) unreferenced

enable_after_new_example :
    (enable_auto_cleanup (some 0) made ≡ none)
    × (enable_auto_cleanup (some 0) (disable_auto_cleanup (some 0) made) ≢ none)
enable_after_new_example = enable_after_new friendly no_bridge empty made 0 made_lem
