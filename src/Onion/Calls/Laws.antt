-- ===== src/Onion/Calls/Laws.antt =====
-- The key of the listeners of an `Onion`, whatever its methods are asked for.
use onramp.Prelude.{
  All, ℕ, ◌≡◌, refl, sym, ◌∙◌, ◌⊎◌, inl, inr, Option, some-injective, String, List, [], ◌∷◌,
}
use onramp.Keystore.{Filepath}
use onramp.Keystore.Onion.{OnionKeys}
use onramp.Onion.Calls.{
  Service, Answers, Error, keys, delete_keys, close, Kind, opens, Call, listens, dials, asks_keys,
  deletes_keys, closes, run,
}
use onramp.Onion.Calls.Keeping.{
  HasKey, opens-sets, opens-Keeps, listen_conf_of-Keeps, IsFair, run-Keeps,
}

module _ {K : Type 0} (ok : OnionKeys K) (fp : Filepath) (o : ℕ) where
  keys-conf : (a : Answers K) (w : Service K) → (keys ok fp o a w).1.listen_conf ≡ w.listen_conf
  unfolding keys
  keys-conf a w = refl

  delete_keys-conf :
      (a : Answers K) (w : Service K) → (delete_keys ok fp o a w).1.listen_conf ≡ w.listen_conf
  unfolding delete_keys
  delete_keys-conf a w = refl

  close-conf :
      (stop : Option String) (w : Service K) → (close ok fp o stop w).1.listen_conf ≡ w.listen_conf
  unfolding close
  close-conf stop w = refl

  abbrev Anything : {A : Type 0} → A → Type 0
  Anything a = Unit {0}

  all-IsFair : (cs : List (Call ok fp o)) → All (IsFair ok fp o Anything Anything) cs
  all-IsFair [] = tt
  all-IsFair (listens l a ∷ cs) = (tt, all-IsFair cs)
  all-IsFair (dials a ∷ cs) = (tt, all-IsFair cs)
  all-IsFair (asks_keys a ∷ cs) = (tt, all-IsFair cs)
  all-IsFair (deletes_keys a ∷ cs) = (tt, all-IsFair cs)
  all-IsFair (closes stop ∷ cs) = (tt, all-IsFair cs)

  run-HasKey :
      (k : K) (cs : List (Call ok fp o)) (w : Service K) → HasKey k w → HasKey k (run ok fp o cs w)
  run-HasKey k cs w h =
      run-Keeps ok fp o (HasKey k) Anything Anything (λ w h. h) (λ a f w h. h)
        (λ a. listen_conf_of-Keeps ok fp o a k) (λ a w h. keys-conf a w ∙ h)
        (λ a w h. delete_keys-conf a w ∙ h) (λ stop w f h. close-conf stop w ∙ h) cs w
        (all-IsFair cs) h

  opens-HasKey :
      (k : K) (l : Kind ok fp o) (a : Answers K) (w : Service K)
      → HasKey k w
      → HasKey k (opens ok fp o l a w).1
  opens-HasKey k l a w h =
      opens-Keeps ok fp o (HasKey k) Anything Anything (λ w h. h) (λ a f w h. h)
        (λ a. listen_conf_of-Keeps ok fp o a k) (λ a w h. keys-conf a w ∙ h)
        (λ a w h. delete_keys-conf a w ∙ h) (λ stop w f h. close-conf stop w ∙ h) l a tt w h

  -- An error, or a listener with this key.
  abbrev pub HasSameKey : K → Error ⊎ K → Type 0
  HasSameKey k (inl e) = Unit
  HasSameKey k (inr k') = k' ≡ k

  HasSameKey-inr : (k : K) (r : Error ⊎ K) → ((k' : K) → r ≡ inr k' → k' ≡ k) → HasSameKey k r
  HasSameKey-inr k (inl e) f = tt
  HasSameKey-inr k (inr k') f = f k' refl

  -- Where `Listen` or `ListenTLS` of an `Onion` has given a listener, every later one ends with an error or
  -- gives a listener with the same key, whatever the `Onion` is asked for between them, also to delete its
  -- keys or to close, and whatever is answered.
  pub same_key :
      (l l' : Kind ok fp o) (a a' : Answers K) (cs : List (Call ok fp o)) (w : Service K) (k : K)
      → (opens ok fp o l a w).0 ≡ inr k
      → HasSameKey k (opens ok fp o l' a' (run ok fp o cs (opens ok fp o l a w).1)).0
  same_key l l' a a' cs w k h =
      let w' = run ok fp o cs (opens ok fp o l a w).1 in
      let held = run-HasKey k cs (opens ok fp o l a w).1 (opens-sets ok fp o l a w k h) in
      HasSameKey-inr k (opens ok fp o l' a' w').0 (λ k' h'.
        some-injective _ _ (sym (opens-sets ok fp o l' a' w' k' h') ∙ opens-HasKey k l' a' w' held))
