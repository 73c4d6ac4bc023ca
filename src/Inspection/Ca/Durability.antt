-- ===== src/Inspection/Ca/Durability.antt =====
-- What an interrupted or failing write leaves behind.
use mathlib.Core.List.{append_assoc}
use egress_gateway.Prelude.{ap, ℕ, ◌≡◌, ◌≢◌, refl, ◌⊎◌, inl, inr, List, [], ◌∷◌, ◌++◌, Text, arith}
use egress_gateway.Inspection.Crypto.{Bytes}
use egress_gateway.Inspection.Ca.Write.{
  Publish, Call, create_temp, chmod, write, sync, close, publish, open_dir, sync_dir, close_dir,
  remove_temp, Answer, success, exists_error, other_error, Run, Oracle, before, deferred, done,
  sync_directory, fill, write_atomic,
}

-- No call of the run gives the target its content.
abbrev pub NeverPublishes : List Call → Type 0
NeverPublishes [] = Unit
NeverPublishes (create_temp ∷ cs) = NeverPublishes cs
NeverPublishes (chmod m ∷ cs) = NeverPublishes cs
NeverPublishes (write b ∷ cs) = NeverPublishes cs
NeverPublishes (sync ∷ cs) = NeverPublishes cs
NeverPublishes (close ∷ cs) = NeverPublishes cs
NeverPublishes (publish how path ∷ cs) = ⊥
NeverPublishes (open_dir ∷ cs) = NeverPublishes cs
NeverPublishes (sync_dir ∷ cs) = NeverPublishes cs
NeverPublishes (close_dir ∷ cs) = NeverPublishes cs
NeverPublishes (remove_temp ∷ cs) = NeverPublishes cs

-- A success: the target has its content, and the directory is synced.
pub record IsDurable (oracle : Oracle) (how : Publish) (path : Text) : Type 0 where
  pub published : oracle (publish how path) ≡ success
  pub directory_synced : oracle sync_dir ≡ success

NeverPublishes-append :
    (cs ds : List Call) → NeverPublishes cs → NeverPublishes ds → NeverPublishes (cs ++ ds)
NeverPublishes-append [] ds h k = k
NeverPublishes-append (create_temp ∷ cs) ds h k = NeverPublishes-append cs ds h k
NeverPublishes-append (chmod m ∷ cs) ds h k = NeverPublishes-append cs ds h k
NeverPublishes-append (write b ∷ cs) ds h k = NeverPublishes-append cs ds h k
NeverPublishes-append (sync ∷ cs) ds h k = NeverPublishes-append cs ds h k
NeverPublishes-append (close ∷ cs) ds h k = NeverPublishes-append cs ds h k
NeverPublishes-append (publish how path ∷ cs) ds h k = absurd h
NeverPublishes-append (open_dir ∷ cs) ds h k = NeverPublishes-append cs ds h k
NeverPublishes-append (sync_dir ∷ cs) ds h k = NeverPublishes-append cs ds h k
NeverPublishes-append (close_dir ∷ cs) ds h k = NeverPublishes-append cs ds h k
NeverPublishes-append (remove_temp ∷ cs) ds h k = NeverPublishes-append cs ds h k

module _ (oracle : Oracle) (how : Publish) (path : Text) where
  -- Calls that all succeed.
  abbrev pub AllSucceed : List Call → Type 0
  AllSucceed [] = Unit
  AllSucceed (c ∷ cs) = (oracle c ≡ success) × AllSucceed cs

  -- The target is not touched, and the result is no success; or it gets its content in one call,
  -- behind these calls, all of which succeeded.
  abbrev pub PublishesAfter : List Call → Run → Type 0
  PublishesAfter cs r =
      (NeverPublishes r.calls × (r.result ≢ success))
      ⊎ ((rest : List Call) × (r.calls ≡ cs ++ (publish how path ∷ rest))
          × NeverPublishes rest
          × AllSucceed cs)

  before-PublishesAfter :
      (c : Call) (cs : List Call) (r : Run)
      → NeverPublishes (c ∷ [])
      → (NeverPublishes r.calls → NeverPublishes (c ∷ r.calls))
      → PublishesAfter cs r
      → PublishesAfter (c ∷ cs) (before c (oracle c) r)
  unfolding before
  before-PublishesAfter c cs r one more h = go (oracle c) refl h
    where
      go :
          (a : Answer)
          → oracle c ≡ a
          → PublishesAfter cs r
          → PublishesAfter (c ∷ cs) (before c (oracle c) r)
      go exists_error e k = rw e (inl (one, λ q. cc))
      go other_error e k = rw e (inl (one, λ q. cc))
      go success e (inl k) = rw (e, before) (inl (more k.0, k.1))
      go success e (inr (rest, same, once, all)) =
          inr (rest, rw (e, before) (ap (◌∷◌ c) same), once, (e, all))

  deferred-PublishesAfter :
      (ds cs : List Call) (r : Run)
      → NeverPublishes ds
      → PublishesAfter cs r
      → PublishesAfter cs (deferred ds r)
  unfolding deferred
  deferred-PublishesAfter ds cs r never (inl k) =
      inl (NeverPublishes-append r.calls ds k.0 never, k.1)
  deferred-PublishesAfter ds cs r never (inr (rest, same, once, all)) = inr (
    rest ++ ds,
    rw same (append_assoc cs (publish how path ∷ rest) ds),
    NeverPublishes-append rest ds once never,
    all,
  )

  sync_directory-NeverPublishes : NeverPublishes (sync_directory oracle).calls
  unfolding sync_directory before deferred
  sync_directory-NeverPublishes = go (oracle open_dir) (oracle sync_dir)
    where
      go :
          (a b : Answer)
          → NeverPublishes
              (before open_dir a (deferred (close_dir ∷ []) (before sync_dir b done))).calls
      go success success = tt
      go success exists_error = tt
      go success other_error = tt
      go exists_error b = tt
      go other_error b = tt

  publish-PublishesAfter :
      PublishesAfter []
        (before (publish how path) (oracle (publish how path)) (sync_directory oracle))
  publish-PublishesAfter = go (oracle (publish how path))
    where
      go : (a : Answer) → PublishesAfter [] (before (publish how path) a (sync_directory oracle))
      go success =
          inr (
            (sync_directory oracle).calls,
            unfold before in refl,
            sync_directory-NeverPublishes,
            tt,
          )
      go exists_error = inr ([], unfold before in refl, tt, tt)
      go other_error = inr ([], unfold before in refl, tt, tt)

module _ (oracle : Oracle) (how : Publish) (path : Text) (content : Bytes) (mode : ℕ) where
  -- In every run the target either is not touched, and the result is no success, or gets its
  -- content in one call, once the temporary file was made, has its mode, and holds the whole
  -- content, written, synced and closed, each with success; later calls leave the target alone.
  pub write_atomic-PublishesAfter :
      PublishesAfter oracle how path
        (create_temp ∷ chmod mode ∷ write content ∷ sync ∷ close ∷ [])
        (write_atomic oracle how path content mode)
  unfolding write_atomic fill
  write_atomic-PublishesAfter =
      before-PublishesAfter oracle how path create_temp
        (chmod mode ∷ write content ∷ sync ∷ close ∷ []) _ tt (λ h. h)
        (deferred-PublishesAfter oracle how path (close ∷ remove_temp ∷ [])
          (chmod mode ∷ write content ∷ sync ∷ close ∷ []) _ tt
          (before-PublishesAfter oracle how path (chmod mode) (write content ∷ sync ∷ close ∷ []) _
            tt (λ h. h)
            (before-PublishesAfter oracle how path (write content) (sync ∷ close ∷ []) _ tt (λ h. h)
              (before-PublishesAfter oracle how path sync (close ∷ []) _ tt (λ h. h)
                (before-PublishesAfter oracle how path close [] _ tt (λ h. h)
                  (publish-PublishesAfter oracle how path))))))

  -- A success means that the target was published and its directory synced.
  pub write_atomic-IsDurable :
      (write_atomic oracle how path content mode).result ≡ success → IsDurable oracle how path
  unfolding write_atomic fill deferred before sync_directory
  write_atomic-IsDurable h = ground arith
