-- ===== src/EventBus/Feed.antt =====
-- One subscriber's feed, over offers and receives.
use weaveplatform_agent_core.Base.{
  ℕ, suc, ◌+◌, ◌%◌, ◌^◌, ◌≤◌, ◌<◌, Bool, true, false, Option, none, some, List, [], ◌∷◌, ◌++◌,
  length, length-append, ltb, if◌then◌else◌, ◌≡◌, refl, sym, ap, ◌∙◌, subst, arith,
}
use weaveplatform_agent_core.EventBus.{
  Event, Subscription, buffer_size, matches, offer, receive, place, take_from,
}

-- What happens to a subscription: the bus offers it an event, or its reader takes one.
pub data Action : Type 0 where
  offered : Event → Action
  taken : Action

-- The events that the reader has got, in order, and the subscription.
abbrev got : Option Event × Subscription → List Event × Subscription → List Event × Subscription
got (none, _) r = r
got (some ev, _) (evs, s) = (ev ∷ evs, s)

abbrev pub live : Subscription → List Action → List Event × Subscription
live s [] = ([], s)
live s (offered ev ∷ acts) = live (offer ev s) acts
live s (taken ∷ acts) = got (receive s) (live (receive s).1 acts)

-- The events on offer that the patterns ask for.
abbrev pub wanted : List (List ℕ) → List Action → List Event
wanted topics [] = []
wanted topics (offered ev ∷ acts) =
    let rest = wanted topics acts in if matches topics ev.topic then ev ∷ rest else rest
wanted topics (taken ∷ acts) = wanted topics acts

-- `xs` is `ys` with some elements left out, in number `n`.
pub data Thinned {ℓ} {A : Type ℓ} : List A → List A → ℕ → Type ℓ where
  done : Thinned [] [] 0
  kept : (x : A) (xs ys : List A) (n : ℕ) → Thinned xs ys n → Thinned (x ∷ xs) (x ∷ ys) n
  lost : (y : A) (xs ys : List A) (n : ℕ) → Thinned xs ys n → Thinned xs (y ∷ ys) (suc n)

module _ {ℓ} {A : Type ℓ} where
  thin_all : (zs : List A) → Thinned zs (zs ++ []) 0
  thin_all [] = done
  thin_all (z ∷ zs) = kept z zs (zs ++ []) 0 (thin_all zs)

  lose_behind :
      (zs : List A) (y : A) (xs ys : List A) (n : ℕ)
      → Thinned xs (zs ++ ys) n
      → Thinned xs (zs ++ (y ∷ ys)) (suc n)
  lose_behind [] y xs ys n t = lost y xs ys n t
  lose_behind (z ∷ zs) y (_ ∷ xs) ys n (kept _ _ _ _ t) =
      kept z xs (zs ++ (y ∷ ys)) (suc n) (lose_behind zs y xs ys n t)
  lose_behind (z ∷ zs) y xs ys (suc n) (lost _ _ _ _ t) =
      lost z xs (zs ++ (y ∷ ys)) (suc n) (lose_behind zs y xs ys n t)

  append_assoc : (xs : List A) (y : A) (zs : List A) → (xs ++ (y ∷ [])) ++ zs ≡ xs ++ (y ∷ zs)
  append_assoc [] y zs = refl
  append_assoc (x ∷ xs) y zs = ap (◌∷◌ x) (append_assoc xs y zs)

-- What a reader has got and will get, against what there was and what was offered.
pub record Accounts (s : Subscription) (topics : List (List ℕ)) (acts : List Action)
    (r : List Event × Subscription) : Type 0 where
  pub losses : ℕ
  pub thinned : Thinned (r.0 ++ r.1.queue) (s.queue ++ wanted topics acts) losses
  pub counted : r.1.dropped ≡ (s.dropped + losses) % 2 ^ 64
  pub bounded : length r.1.queue ≤ buffer_size

abbrev Earlier : List (List ℕ) → List Action → Type 0
Earlier topics acts =
    (s : Subscription)
    → s.topics ≡ topics
    → s.dropped < 2 ^ 64
    → length s.queue ≤ buffer_size
    → Accounts s topics acts (live s acts)

accounts :
    (s : Subscription) (topics : List (List ℕ)) (acts : List Action)
    → s.topics ≡ topics
    → s.dropped < 2 ^ 64
    → length s.queue ≤ buffer_size
    → Accounts s topics acts (live s acts)
unfolding offer receive
accounts s topics [] same small room = record {
  losses = 0;
  thinned = thin_all s.queue;
  counted = omega arith;
  bounded = room;
}
accounts s topics (taken ∷ acts) same small room =
    go s.queue refl (λ s1 t d q. accounts s1 topics acts t d q)
  where
    go :
        (q : List Event)
        → s.queue ≡ q
        → Earlier topics acts
        → Accounts s topics (taken ∷ acts) (got (take_from s q) (live (take_from s q).1 acts))
    go [] e ih =
        let a = ih s same small room in
        record { losses = a.losses; thinned = a.thinned; counted = a.counted; bounded = a.bounded }
    go (ev ∷ rest) e ih =
        let a = ih (record s { queue = rest }) same small (ground arith) in
        let r' = live (record s { queue = rest }) acts in
        record {
          losses = a.losses;
          thinned =
              subst (λ q. Thinned (ev ∷ (r'.0 ++ r'.1.queue)) (q ++ wanted topics acts) a.losses)
                (sym e)
                (kept ev (r'.0 ++ r'.1.queue) (rest ++ wanted topics acts) a.losses a.thinned);
          counted = a.counted;
          bounded = a.bounded;
        }
accounts s topics (offered ev ∷ acts) same small room =
    go (matches s.topics ev.topic) (ltb (length s.queue) buffer_size) refl refl
      (λ s1 t d q. accounts s1 topics acts t d q)
  where
    go :
        (b r : Bool)
        → matches s.topics ev.topic ≡ b
        → ltb (length s.queue) buffer_size ≡ r
        → Earlier topics acts
        → Accounts s topics (offered ev ∷ acts) (live (place ev s b r) acts)
    go false r e f ih =
        let a = ih s same small room in
        let r' = live s acts in
        record {
          losses = a.losses;
          thinned =
              subst (λ l. Thinned (r'.0 ++ r'.1.queue) (s.queue ++ l) a.losses) (ground arith)
                a.thinned;
          counted = a.counted;
          bounded = a.bounded;
        }
    go true true e f ih =
        let a =
          ih (place ev s true true) same small (ground (arith, length-append s.queue (ev ∷ []))) in
        let r' = live (place ev s true true) acts in
        record {
          losses = a.losses;
          thinned =
              subst (λ l. Thinned (r'.0 ++ r'.1.queue) l a.losses)
                (append_assoc s.queue ev (wanted topics acts)
                  ∙ ap (λ l. s.queue ++ l) (ground arith))
                a.thinned;
          counted = a.counted;
          bounded = a.bounded;
        }
    go true false e f ih =
        let a = ih (place ev s true false) same (omega arith) room in
        let r' = live (place ev s true false) acts in
        record {
          losses = suc a.losses;
          thinned =
              subst (λ l. Thinned (r'.0 ++ r'.1.queue) (s.queue ++ l) (suc a.losses)) (ground arith)
                (lose_behind s.queue ev (r'.0 ++ r'.1.queue) (wanted topics acts) a.losses
                  a.thinned);
          counted = a.counted ∙ omega arith;
          bounded = a.bounded;
        }

-- At most once, in order, and with every loss counted: whatever interleaving of offers and receives a
-- subscription sees, what its reader has got and what its feed still holds are what the feed held at
-- first followed by every event on offer that it asks for, in that order, with some left out; the
-- number left out is what `dropped` has grown by, modulo 2^64; and the feed, which held at most 64,
-- holds at most 64.
pub live-Accounts :
    (s : Subscription) (acts : List Action)
    → s.dropped < 2 ^ 64
    → length s.queue ≤ buffer_size
    → Accounts s s.topics acts (live s acts)
live-Accounts s acts small room = accounts s s.topics acts refl small room
