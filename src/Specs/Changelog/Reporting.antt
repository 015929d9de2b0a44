-- ===== src/Specs/Changelog/Reporting.antt =====
-- scripts/api-changelog.mjs: which operations each of the lists names.
use go_platform_starter.Prelude.{
  ℕ, Bool, true, false, not, ◌&&◌, ◌||◌, Option, none, some, List, [], ◌∷◌, ◌++◌, ◌≡◌, refl, any,
  filter, arith, if◌then◌else◌, Text, text_same, text_same_iff,
}
use go_platform_starter.Specs.Objects.{lookup, put, lookup-put}
use go_platform_starter.Specs.Operation.{or_else}
use go_platform_starter.Specs.Changelog.{
  Method, get, head, post, put_method, patch, delete, Paths, method_name, methods, operation_key,
  path_operations, to_map, all_operations, operations, has, keys, differ, removed, changelog,
}

-- A filtered list names what the list names and the test takes.
named-filter :
    (p : Text → Bool) (k : Text) (o : List (Text × Text))
    → any (text_same k) (filter p (keys o)) ≡ (has k o && p k)
named-filter p k [] = refl
named-filter p k ((other, v) ∷ o) =
    ground (arith, named-filter p k o, text_same_iff k other, text_same_iff other k)

abbrev method_same : Method → Method → Bool
method_same get get = true
method_same head head = true
method_same post post = true
method_same put_method put_method = true
method_same patch patch = true
method_same delete delete = true
method_same _ _ = false

-- No two operations share a key.
text_same-operation_key :
    (m m' : Method) (p p' : Text)
    → text_same (operation_key m p) (operation_key m' p') ≡ (method_same m m' && text_same p p')
text_same-operation_key m m' p p' = ground arith

-- The last of the entries by the key.
abbrev latest : Text → List (Text × Text) → Option Text
latest k [] = none
latest k ((other, v) ∷ entries) =
    or_else (latest k entries) (if text_same other k then some v else none)

lookup-to_map :
    (k : Text) (entries acc : List (Text × Text))
    → lookup k (to_map entries acc) ≡ or_else (latest k entries) (lookup k acc)
lookup-to_map k [] acc = refl
lookup-to_map k ((other, v) ∷ entries) acc =
    ground (arith, lookup-to_map k entries (put other v acc), lookup-put other k v acc)

latest-append :
    (k : Text) (xs ys : List (Text × Text))
    → latest k (xs ++ ys) ≡ or_else (latest k ys) (latest k xs)
latest-append k [] ys = ground arith
latest-append k ((other, v) ∷ xs) ys = ground (arith, latest-append k xs ys)

latest-entry :
    (k other : Text) (found : Option Text) (rest : List (Text × Text))
    → latest k (elim found [ none ↦ rest | some op ↦ (other, op) ∷ rest ])
      ≡ or_else (latest k rest) (if text_same other k then found else none)
latest-entry k other none rest = ground arith
latest-entry k other (some op) rest = ground arith

-- A method finds its own entry only.
same_method :
    (m' m : Method) (here : Bool) (item : List (Text × Text))
    → (if method_same m' m && here then lookup (method_name m') item else none)
      ≡ (if here && method_same m m' then lookup (method_name m) item else none)
same_method m' m here item = ground arith

joined :
    (here a b : Bool) (found : Option Text)
    → or_else (if here && b then found else none) (if here && a then found else none)
      ≡ (if here && (a || b) then found else none)
joined here a b found = ground arith

latest-path_operations :
    (m : Method) (path other : Text) (ms : List Method) (item : List (Text × Text))
    → latest (operation_key m path) (path_operations ms other item) ≡ (
        if text_same other path && any (method_same m) ms
        then lookup (method_name m) item
        else none)
latest-path_operations m path other [] item = ground arith
latest-path_operations m path other (m' ∷ ms) item =
    rw
      (
        latest-entry (operation_key m path) (operation_key m' other) (lookup (method_name m') item)
            (path_operations ms other item),
        text_same-operation_key m' m other path,
        same_method m' m (text_same other path) item,
        latest-path_operations m path other ms item,
      )
      (joined (text_same other path) (method_same m m') (any (method_same m) ms)
        (lookup (method_name m) item))

known : (m : Method) → any (method_same m) methods ≡ true
known m = ground arith

-- The operation of a path; of entries by the same name the last counts, as in `JSON.parse`.
abbrev pub described : Method → Text → Paths → Option Text
described m path [] = none
described m path ((other, item) ∷ paths) =
    or_else (described m path paths)
      (if text_same other path then lookup (method_name m) item else none)

latest-all_operations :
    (m : Method) (path : Text) (paths : Paths)
    → latest (operation_key m path) (all_operations paths) ≡ described m path paths
latest-all_operations m path [] = refl
latest-all_operations m path ((other, item) ∷ paths) =
    rw
      (
        latest-append (operation_key m path) (path_operations methods other item)
            (all_operations paths),
        latest-all_operations m path paths,
        latest-path_operations m path other methods item,
        known m,
      )
      (ground arith)

lookup-operations :
    (m : Method) (path : Text) (paths : Paths)
    → lookup (operation_key m path) (operations paths) ≡ described m path paths
unfolding operations
lookup-operations m path paths =
    rw
      (
        lookup-to_map (operation_key m path) (all_operations paths) [],
        latest-all_operations m path paths,
      )
      (ground arith)

abbrev pub is_there : Option Text → Bool
is_there none = false
is_there (some _) = true

has-operations :
    (m : Method) (path : Text) (paths : Paths)
    → has (operation_key m path) (operations paths) ≡ is_there (described m path paths)
has-operations m path paths = ground (arith, lookup-operations m path paths)

-- The lists of the changelog name an operation by its key as follows, whatever else has changed: Added has
-- it when only the current description has it, Removed when only the previous one has it, and Changed when
-- both have it, with different texts.
pub changelog_lem :
    (m : Method) (path : Text) (previous current : Paths)
    → (any (text_same (operation_key m path)) (changelog previous current).additions
        ≡ (is_there (described m path current) && not (is_there (described m path previous))))
      × (any (text_same (operation_key m path)) (changelog previous current).removals
          ≡ (is_there (described m path previous) && not (is_there (described m path current))))
      × (any (text_same (operation_key m path)) (changelog previous current).changes ≡ (
          is_there (described m path current)
          && (is_there (described m path previous)
              && differ (described m path previous) (described m path current))))
unfolding changelog
changelog_lem m path previous current =
    rw
      (
        named-filter (λ k. not (has k (operations previous))) (operation_key m path)
            (operations current),
        named-filter (λ k. not (has k (operations current))) (operation_key m path)
            (operations previous),
        named-filter
            (λ k.
              has k (operations previous)
              && differ (lookup k (operations previous)) (lookup k (operations current)))
            (operation_key m path) (operations current),
        has-operations m path previous,
        has-operations m path current,
        lookup-operations m path previous,
        lookup-operations m path current,
      )
      (refl, refl, refl)

named-exit_code :
    (k : Text) (previous current : Paths)
    → any (text_same k) (changelog previous current).removals ≡ true
    → (changelog previous current).exit_code ≡ 2
unfolding changelog
named-exit_code k previous current named =
    code (removed (operations previous) (operations current)) named
  where
    code :
        (gone : List Text)
        → any (text_same k) gone ≡ true
        → ◌≡◌ {A = ℕ} (elim gone [ [] ↦ 0 | _ ∷ _ ↦ 2 ]) 2
    code [] nothing = ground arith
    code (_ ∷ _) _ = refl

-- The run fails, with exit code 2, whenever an operation of the previous description is gone.
changelog-removal :
    (m : Method) (path op : Text) (previous current : Paths)
    → described m path previous ≡ some op
    → described m path current ≡ none
    → (changelog previous current).exit_code ≡ 2
changelog-removal m path op previous current was gone =
    named-exit_code (operation_key m path) previous current
      (rw ((changelog_lem m path previous current).1, was, gone))
