-- ===== src/Controllers/BrokerController/Master.antt =====
-- controllers/broker_controller.go: which broker becomes the master.
use undermoon_operator.Prelude.{
  ℕ, ◌≡◌, ◌⊎◌, inl, inr, refl, arith, Bytes, bytes_eq, bytes_eq_self, eq_of_bytes_eq, Bool, true,
  false, not, ◌&&◌, ◌||◌, if◌then◌else◌, List, [], ◌∷◌, ◌++◌, length, ltb, ◌==◌,
}
use undermoon_operator.Controllers.Io.{
  HttpRequest, get_config, get_epoch, Outside, World, ok, err, Error, ◌>>=◌,
}
use undermoon_operator.Controllers.Io.Returns.{
  Returns, Returns-pure, Returns-raise, Returns-handle, Returns-bind, Returns-any,
}
use undermoon_operator.Controllers.BrokerClient as Client
use undermoon_operator.Controllers.MetaController.{member}
use undermoon_operator.Controllers.BrokerController.{
  without, find_masters, find_max_epoch, choose_master, get_current_master,
}

-- An address is among the replicas exactly when it is among the brokers and is not the master.
member-without :
    (master : Bytes) (addresses : List Bytes) (a : Bytes)
    → member a (without master addresses) ≡ (member a addresses && not (bytes_eq a master))
unfolding without member
member-without master [] a = refl
member-without master (x ∷ xs) a =
    ground (arith, member-without master xs a, eq_of_bytes_eq x a, eq_of_bytes_eq x master)

-- All addresses of the first list are in the second.
abbrev IsWithin : List Bytes → List Bytes → Type 0
IsWithin xs ys = (a : Bytes) → member a xs ≡ true → member a ys ≡ true

-- No address, or one of the list.
abbrev pub IsNoneOrOf : List Bytes → Bytes → Type 0
IsNoneOrOf ys a = (a ≡ []) ⊎ (member a ys ≡ true)

member-snoc :
    (xs : List Bytes) (x a : Bytes)
    → member a (xs ++ x ∷ []) ≡ true
    → (member a xs ≡ true) ⊎ (x ≡ a)
unfolding member
member-snoc [] x a h = ground (arith, eq_of_bytes_eq x a)
member-snoc (y ∷ xs) x a h = ground (arith, member-snoc xs x a)

member_self : (x : Bytes) (xs : List Bytes) → member x (x ∷ xs) ≡ true
unfolding member
member_self x xs = rw (bytes_eq_self x) refl

member-tail : (a x : Bytes) (xs : List Bytes) → member a xs ≡ true → member a (x ∷ xs) ≡ true
unfolding member
member-tail a x xs h = ground arith

nothing-IsWithin : (ys : List Bytes) → IsWithin [] ys
unfolding member
nothing-IsWithin ys a h = ground arith

module _ {E : Type 0} (o : Outside E) (all : List Bytes) where
  find_masters-IsWithin :
      (found addresses : List Bytes)
      → IsWithin found all
      → IsWithin addresses all
      → Returns (λ ms. IsWithin ms all) (find_masters o found addresses)
  unfolding find_masters
  find_masters-IsWithin found [] hf ha = Returns-pure found hf
  find_masters-IsWithin found (x ∷ xs) hf ha =
      let f : List Bytes → List Bytes =
        λ replicas. if length replicas == 0 then found else found ++ x ∷ [] in
      let rest : IsWithin xs all = λ a h. ha a (member-tail a x xs h) in
      Returns-handle (Client.get_replica_addresses o x) (λ replicas. find_masters o (f replicas) xs)
        (λ _. find_masters o found xs) (Returns-any (Client.get_replica_addresses o x))
        (λ replicas _. find_masters-IsWithin (f replicas) xs (grown replicas) rest)
        (λ _. find_masters-IsWithin found xs hf rest)
    where
      grown :
          (replicas : List Bytes)
          → IsWithin (if length replicas == 0 then found else found ++ x ∷ []) all
      grown replicas a h = ground (arith, hf a, ha a, member-snoc found x a, member_self x xs)

  find_max_epoch-IsNoneOrOf :
      (n : ℕ) (best : Bytes) (addresses : List Bytes)
      → IsNoneOrOf all best
      → IsWithin addresses all
      → Returns (IsNoneOrOf all) (find_max_epoch o n best addresses)
  unfolding find_max_epoch
  find_max_epoch-IsNoneOrOf n best [] hb ha = Returns-pure best hb
  find_max_epoch-IsNoneOrOf n best (x ∷ xs) hb ha =
      let better : ℕ → Bool = λ epoch. bytes_eq best [] || ltb n epoch in
      let rest : IsWithin xs all = λ a h. ha a (member-tail a x xs h) in
      Returns-handle (Client.get_broker_epoch o x)
        (λ epoch.
          find_max_epoch o (if better epoch then epoch else n) (if better epoch then x else best)
            xs)
        (λ _. find_max_epoch o n best xs) (Returns-any (Client.get_broker_epoch o x))
        (λ epoch _.
          find_max_epoch-IsNoneOrOf (if better epoch then epoch else n)
            (if better epoch then x else best) xs (chosen (better epoch)) rest)
        (λ _. find_max_epoch-IsNoneOrOf n best xs hb rest)
    where
      chosen : (b : Bool) → IsNoneOrOf all (if b then x else best)
      chosen true = inr (ha x (member_self x xs))
      chosen false = hb

  choose_master-IsNoneOrOf :
      (addresses masters : List Bytes)
      → IsWithin addresses all
      → IsWithin masters all
      → Returns (IsNoneOrOf all) (choose_master o addresses masters)
  unfolding choose_master
  choose_master-IsNoneOrOf addresses [] ha hm =
      find_max_epoch-IsNoneOrOf 0 [] addresses (inl refl) ha
  choose_master-IsNoneOrOf addresses (m ∷ []) ha hm = Returns-pure m (inr (hm m (member_self m [])))
  choose_master-IsNoneOrOf addresses (m ∷ n ∷ ms) ha hm =
      find_max_epoch-IsNoneOrOf 0 [] (m ∷ n ∷ ms) (inl refl) hm

module _ {E : Type 0} (o : Outside E) where
  -- Whatever the brokers answer, a master that is chosen without an error is one of the brokers or
  -- the empty address.
  pub get_current_master-IsNoneOrOf :
      (addresses : List Bytes) (w : World E) (master : Bytes)
      → (get_current_master o addresses w).0 ≡ ok master
      → (master ≡ []) ⊎ (member master addresses ≡ true)
  unfolding get_current_master
  get_current_master-IsNoneOrOf [] w master h = (Returns-raise {Q = IsNoneOrOf []} _).at w master h
  get_current_master-IsNoneOrOf (x ∷ xs) w master h =
      (Returns-bind (find_masters o [] (x ∷ xs)) (choose_master o (x ∷ xs))
          (find_masters-IsWithin o (x ∷ xs) [] (x ∷ xs) (nothing-IsWithin (x ∷ xs)) (λ a h. h))
          (λ ms hm. choose_master-IsNoneOrOf o (x ∷ xs) (x ∷ xs) ms (λ a h. h) hm)).at
        w master h

module _ {E : Type 0} (o : Outside E) (error : Error)
    (silent : (req : HttpRequest) (e : E) → (o.http req e).0 ≡ err error) where
  no_replica_addresses :
      (x : Bytes) (w : World E) → (Client.get_replica_addresses o x w).0 ≡ err error
  unfolding Client.get_replica_addresses Client.call ◌>>=◌
  no_replica_addresses x w = ground (arith, silent (get_config x) w.env)

  no_broker_epoch : (x : Bytes) (w : World E) → (Client.get_broker_epoch o x w).0 ≡ err error
  unfolding Client.get_broker_epoch Client.call ◌>>=◌
  no_broker_epoch x w = ground (arith, silent (get_epoch x) w.env)

  find_masters_silent :
      (found addresses : List Bytes) (w : World E) → (find_masters o found addresses w).0 ≡ ok found
  unfolding find_masters ◌>>=◌
  find_masters_silent found [] w = refl
  find_masters_silent found (x ∷ xs) w =
      rw (no_replica_addresses x w)
        (find_masters_silent found xs (Client.get_replica_addresses o x w).1)

  find_max_epoch_silent :
      (n : ℕ) (best : Bytes) (addresses : List Bytes) (w : World E)
      → (find_max_epoch o n best addresses w).0 ≡ ok best
  unfolding find_max_epoch ◌>>=◌
  find_max_epoch_silent n best [] w = refl
  find_max_epoch_silent n best (x ∷ xs) w =
      rw (no_broker_epoch x w) (find_max_epoch_silent n best xs (Client.get_broker_epoch o x w).1)

  -- If there are brokers and all requests to them fail, the choice of a master still succeeds,
  -- with the empty address.
  pub get_current_master_silent :
      (x : Bytes) (addresses : List Bytes) (w : World E)
      → (get_current_master o (x ∷ addresses) w).0 ≡ ok []
  unfolding get_current_master choose_master ◌>>=◌
  get_current_master_silent x addresses w =
      rw (find_masters_silent [] (x ∷ addresses) w)
        (find_max_epoch_silent 0 [] (x ∷ addresses) (find_masters o [] (x ∷ addresses) w).1)
