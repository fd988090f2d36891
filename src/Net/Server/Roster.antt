-- ===== src/Net/Server/Roster.antt =====
-- The live sessions of a server against its registry (crates/net/src/registry.rs): `L` gives the kick
-- token and the state of each task that has a session.
use rust_gameserver.Base.{
  ℕ, ◌+◌, ◌≤◌, ◌≡◌, ◌≢◌, ◌∙◌, sym, subst, ◌⊎◌, true, Option, none, some, Bytes, ℕ_discrete, ite,
  arith,
}
use rust_gameserver.Net.Cancellation.{Cancellation, Children}
use rust_gameserver.Net.Registry.{Registry, Entry, register, remove, authenticate}
use rust_gameserver.Net.Registry.Lookup.{session, session-register, session-remove}
use rust_gameserver.Net.Registry.Exclusive.{
  IsExclusive, session-authenticate, register-IsExclusive, remove-IsExclusive,
  authenticate-IsExclusive,
}
use rust_gameserver.Net.Server.Interface.{Program}

module _ {Token Store C X W M : Type 0} (can : Cancellation Token Store) (kids : Children can)
    (prog : Program can C X W M) where
  abbrev pub Roster : Type 0
  Roster = ℕ → Option (Token × X)

  -- The session ids are distinct and at most `begun`; the registry lists the sessions of the roster,
  -- each with its own user and kick token, and no others; a user has one session that is not kicked;
  -- and the kick tokens are children of `shutdown`.
  pub record IsMirrored (shutdown : Token) (begun : ℕ) (L : Roster) (r : Registry Token)
      (st : Store) : Type 0 where
    pub bounded : (n : ℕ) (k : Token) (x : X) → L n ≡ some (k, x) → prog.id x ≤ begun
    pub distinct :
        (m n : ℕ) (k l : Token) (x y : X)
        → L m ≡ some (k, x)
        → L n ≡ some (l, y)
        → prog.id x ≡ prog.id y
        → m ≡ n
    pub listed :
        (n : ℕ) (k : Token) (x : X)
        → L n ≡ some (k, x)
        → session r (prog.id x) ≡ some (record { user_id = prog.user x; kick = k })
    pub owned :
        (j : ℕ) (e : Entry Token)
        → session r j ≡ some e
        → (n : ℕ) × (k : Token) × (x : X) × (L n ≡ some (k, x)) × (prog.id x ≡ j)
    pub exclusive : IsExclusive can r st
    pub children :
        (n : ℕ) (k : Token) (x : X) → L n ≡ some (k, x) → kids.is_child k shutdown st ≡ true

  module _ (shutdown : Token) (begun : ℕ) (L L' : Roster) (r : Registry Token) (st : Store) where
    pub IsMirrored-same :
        ((m : ℕ) → L' m ≡ L m)
        → IsMirrored shutdown begun L r st
        → IsMirrored shutdown begun L' r st
    IsMirrored-same e v = subst (λ l. IsMirrored shutdown begun l r st) (λ i m. sym (e m) i) v

    abbrev IsLater : Store → Type 0
    IsLater st' = (t : Token) → can.is_cancelled t st ≡ true → can.is_cancelled t st' ≡ true

    abbrev KeepsChildren : Store → Type 0
    KeepsChildren st' =
        (t : Token) → kids.is_child t shutdown st ≡ true → kids.is_child t shutdown st' ≡ true

    pub IsMirrored-tokens :
        (st' : Store)
        → IsLater st'
        → KeepsChildren st'
        → IsMirrored shutdown begun L r st
        → IsMirrored shutdown begun L r st'
    IsMirrored-tokens st' later keeps v = record {
      bounded = v.bounded;
      distinct = v.distinct;
      listed = v.listed;
      owned = v.owned;
      exclusive = λ j e u s w. ground (arith, v.exclusive j e u s w, later e.kick);
      children = λ n k x h. keeps k (v.children n k x h);
    }

    module _ (n : ℕ) (k : Token) where
      pub IsMirrored-finish :
          (x : X)
          → L n ≡ some (k, x)
          → ((m : ℕ) → L' m ≡ ite (ℕ_discrete n m) none (L m))
          → IsMirrored shutdown begun L r st
          → IsMirrored shutdown begun L' (remove r (prog.id x)) st
      IsMirrored-finish x here e v = record {
        bounded = λ m l y h. ground (arith, e m, v.bounded m l y);
        distinct = λ a b l o y z h g q. ground (arith, e a, e b, v.distinct a b l o y z);
        listed = λ m l y h. ground (
          arith,
          e m,
          v.listed m l y,
          session-remove r (prog.id x) (prog.id y),
          v.distinct n m k l x y here,
        );
        owned = λ j d s.
            let before : session r j ≡ some d = ground (arith, session-remove r (prog.id x) j) in
            let (m, l, y, at, q) = v.owned j d before in
            (m, l, y, ground (arith, e m, session-remove r (prog.id x) j), q);
        exclusive = remove-IsExclusive can r st (prog.id x) v.exclusive;
        children = λ m l y h. ground (arith, e m, v.children m l y);
      }

      pub IsMirrored-begin :
          (x : X) (st' : Store)
          → L n ≡ none
          → ((m : ℕ) → L' m ≡ ite (ℕ_discrete n m) (some (k, x)) (L m))
          → prog.id x ≡ begun + 1
          → prog.user x ≡ none
          → IsLater st'
          → KeepsChildren st'
          → kids.is_child k shutdown st' ≡ true
          → IsMirrored shutdown begun L r st
          → IsMirrored shutdown (begun + 1) L' (register r (prog.id x) k) st'
      IsMirrored-begin x st' free e i u later keeps made v = record {
        bounded = λ m l y h. ground (arith, e m, v.bounded m l y);
        distinct = λ a b l o y z h g q.
            ground (arith, e a, e b, v.distinct a b l o y z, v.bounded a l y, v.bounded b o z);
        listed = λ m l y h. ground (
          arith,
          e m,
          v.listed m l y,
          session-register r (prog.id x) (prog.id y) k,
          v.bounded m l y,
        );
        owned = λ j d s. elim (ℕ_discrete (prog.id x) j) [
          | yes q ↦ (n, k, x, ground (arith, e n), q)
          | no ne ↦
              let before : session r j ≡ some d =
                ground (arith, session-register r (prog.id x) j k) in
              let (m, l, y, at, q) = v.owned j d before in (m, l, y, ground (arith, e m), q)
        ];
        exclusive =
            let w = IsMirrored-tokens st' later keeps v in
            register-IsExclusive can r st' (prog.id x) k w.exclusive;
        children = λ m l y h. ground (arith, e m, v.children m l y, keeps l);
      }

      module _ (x x' : X) (here : L n ≡ some (k, x)) (i : prog.id x' ≡ prog.id x)
          (e : (m : ℕ) → L' m ≡ ite (ℕ_discrete n m) (some (k, x')) (L m)) where
        pub IsMirrored-still :
            prog.user x' ≡ prog.user x
            → IsMirrored shutdown begun L r st
            → IsMirrored shutdown begun L' r st
        IsMirrored-still u v = record {
          bounded = λ m l y h. ground (arith, e m, v.bounded m l y, v.bounded n k x here);
          distinct = λ a b l o y z h g q. ground (
            arith,
            e a,
            e b,
            v.distinct a b l o y z,
            v.distinct n b k o x z here,
            v.distinct a n l k y x,
          );
          listed = λ m l y h. ground (arith, e m, v.listed m l y, v.listed n k x here);
          owned = λ j d s.
              let (m, l, y, at, q) = v.owned j d s in
              elim (ℕ_discrete n m) [
                | yes p ↦ (n, k, x', ground (arith, e n), ground arith)
                | no ne ↦ (m, l, y, ground (arith, e m), q)
              ];
          exclusive = v.exclusive;
          children = λ m l y h. ground (arith, e m, v.children m l y, v.children n k x here);
        }

        pub IsMirrored-logged_in :
            (u : Bytes)
            → prog.user x' ≡ some u
            → IsMirrored shutdown begun L r st
            → (let a = authenticate can r st (prog.id x) u in
                IsLater a.1 → KeepsChildren a.1 → IsMirrored shutdown begun L' a.0 a.1)
        IsMirrored-logged_in u w v later keeps =
            let r' = (authenticate can r st (prog.id x) u).0 in
            let mine = v.listed n k x here in
            record {
              bounded = λ m l y h. ground (arith, e m, v.bounded m l y, v.bounded n k x here);
              distinct = λ a b l o y z h g q. ground (
                arith,
                e a,
                e b,
                v.distinct a b l o y z,
                v.distinct n b k o x z here,
                v.distinct a n l k y x,
              );
              listed = λ m l y h. ground (
                arith,
                e m,
                v.listed m l y,
                session-authenticate can r st (prog.id x) (prog.id y) u,
                v.distinct n m k l x y here,
              );
              owned = λ j d s.
                  let after = session-authenticate can r st (prog.id x) j u in
                  elim (ℕ_discrete (prog.id x) j) [
                    | yes q ↦ (n, k, x', ground (arith, e n), i ∙ q)
                    | no ne ↦
                        let before : session r j ≡ some d = ground arith in
                        let (m, l, y, at, q) = v.owned j d before in
                        (m, l, y, ground (arith, e m), q)
                  ];
              exclusive = authenticate-IsExclusive can r st (prog.id x) u v.exclusive;
              children =
                  λ m l y h. ground (arith, e m, v.children m l y, v.children n k x here, keeps l);
            }

  -- Of two sessions of a user one has been told to end.
  pub mirrored_exclusive :
      (shutdown : Token) (begun : ℕ) (L : Roster) (r : Registry Token) (st : Store)
      → IsMirrored shutdown begun L r st
      → (m n : ℕ) (k l : Token) (x y : X) (u : Bytes) → L m ≡ some (k, x)
      → L n ≡ some (l, y)
      → prog.user x ≡ some u
      → prog.user y ≡ some u
      → m ≢ n
      → (can.is_cancelled k st ≡ true) ⊎ (can.is_cancelled l st ≡ true)
  mirrored_exclusive shutdown begun L r st v m n k l x y u hm hn ux uy ne =
      let a = v.exclusive (prog.id x) _ u (v.listed m k x hm) ux in
      let b = v.exclusive (prog.id y) _ u (v.listed n l y hn) uy in
      ground (arith, a, b, v.distinct m n k l x y hm hn)
