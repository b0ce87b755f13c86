-- ===== src/Common/Set/Size.antt =====
-- `Length` and `Values` of a concurrent set (common/set.go) and its elements.
use catalogger.Common.Set.{put_all}
use catalogger.Base.{length as len}
use catalogger.Base.GoMap
use catalogger.Common.Set.{new_set, add, append, remove, exists, values, length, Entry, Set, entry}
use catalogger.Base.{if◌then◌else◌, count, Eq, ◌+◌, ◌≡◌, sym, List, [], ◌∷◌, arith}
use catalogger.Base.GoMap.{
  GoMap, IsMap, put-IsMap, del-IsMap, length-put, length-del, count-keys, length-keys,
}
use catalogger.Common.Set.Refinement.{call, Call, adds, removes, asks, appends}

module _ {T : Type 0} ⦃e : Eq T⦄ where
  put_all-IsMap : (m : GoMap T Entry) (vs : List T) → IsMap m → IsMap (put_all m vs)
  unfolding put_all
  put_all-IsMap m [] h = h
  put_all-IsMap m (v ∷ vs) h = put_all-IsMap (GoMap.put m v entry) vs (put-IsMap m v entry h)

  new_set-IsMap : (vs : List T) → IsMap (new_set vs).m
  unfolding new_set
  new_set-IsMap vs = put_all-IsMap [] vs tt

  call-IsMap : (s : Set T) (c : Call T) → IsMap s.m → IsMap (call s c).0.m
  unfolding call add remove append
  call-IsMap s (adds v) h = put-IsMap s.m v entry h
  call-IsMap s (removes v) h = del-IsMap s.m v h
  call-IsMap s (asks v) h = h
  call-IsMap s (appends vs) h = put_all-IsMap s.m vs h

  -- The set after a history of calls.
  after : Set T → List (Call T) → Set T
  after s [] = s
  after s (c ∷ cs) = after (call s c).0 cs

  after-IsMap : (s : Set T) (cs : List (Call T)) → IsMap s.m → IsMap (after s cs).m
  unfolding after
  after-IsMap s [] h = h
  after-IsMap s (c ∷ cs) h = after-IsMap (call s c).0 cs (call-IsMap s c h)

  -- After any history of calls on a new set, `Values` holds each element once and nothing else, and
  -- `Length` is the number of those values.
  values-after :
      (initial : List T) (cs : List (Call T))
      → let s = after (new_set initial) cs in
        ((v : T) → count (values s) v ≡ (if exists s v then 1 else 0)) × (length s ≡ len (values s))
  unfolding values exists length
  values-after initial cs =
      let s = after (new_set initial) cs in
      (
        λ v.
            ground
              (arith, count-keys s.m v (after-IsMap (new_set initial) cs (new_set-IsMap initial))),
        sym (length-keys s.m),
      )

  -- `Add` and `Remove` change the length by one exactly when they report a change.
  pub length_changes :
      (s : Set T) (v : T)
      → IsMap s.m
      → (length (add s v).0 ≡ (if (add s v).1 then length s + 1 else length s))
        × (length s ≡ (if (remove s v).1 then length (remove s v).0 + 1 else length (remove s v).0))
  unfolding length add remove
  length_changes s v h =
      (ground (arith, length-put s.m v entry), ground (arith, length-del s.m v h))
