-- ===== src/Store/Scoped.antt =====
-- `ScopedStore` of src/server/utils.ts: tenant -> owner -> key -> value.
use package.a2a_js.Prelude.{
  String, Bool, Option, none, some, true, eq_refl, [], JsMap, get, set, get-set, or_else, ◌≡◌, ◌==◌,
  ◌&&◌, arith, eq_iff, if◌then◌else◌,
}
use package.a2a_js.Context.{ServerCallContext, OwnerResolver}

pub record ScopedStore (T : Type 0) : Type 0 where
  pub store : JsMap (JsMap (JsMap T))
  pub owner_resolver : OwnerResolver

pub tenant_key : ServerCallContext → String
tenant_key c = or_else c.tenant ""

module _ {T : Type 0} where
  unfoldable pub new_scoped_store : OwnerResolver → ScopedStore T
  new_scoped_store resolver = record { store = []; owner_resolver = resolver }

  owner_key : ScopedStore T → ServerCallContext → String
  owner_key s c = s.owner_resolver c

  -- `this._store.get(t)?.get(o)`.
  abbrev nested_get : String → Option (JsMap (JsMap T)) → Option (JsMap T)
  nested_get o none = none
  nested_get o (some owners) = get o owners

  unfoldable pub get_bucket : ScopedStore T → ServerCallContext → Option (JsMap T)
  unfolding tenant_key owner_key
  get_bucket s c = nested_get (owner_key s c) (get (tenant_key c) s.store)

  -- `getOrCreateBucket(c)`, with the changes `f` that its caller makes to the bucket it returns,
  -- which is a part of the store.
  unfoldable pub update_bucket :
      ScopedStore T → ServerCallContext → (JsMap T → JsMap T) → ScopedStore T
  unfolding tenant_key owner_key
  update_bucket s c f =
      let owners = or_else (get (tenant_key c) s.store) [] in
      let bucket = or_else (get (owner_key s c) owners) [] in
      record s { store = set (tenant_key c) (set (owner_key s c) (f bucket) owners) s.store }

  -- Whether two calls are served from the same bucket.
  unfoldable pub same_scope : ScopedStore T → ServerCallContext → ServerCallContext → Bool
  unfolding tenant_key owner_key
  same_scope s c d = tenant_key c == tenant_key d && owner_key s c == owner_key s d

  -- The same over bare keys.
  nested_get-set :
      (t t' o o' : String) (m : JsMap (JsMap (JsMap T))) (f : JsMap T → JsMap T)
      → let owners = or_else (get t m) [] in
        nested_get o' (get t' (set t (set o (f (or_else (get o owners) [])) owners) m)) ≡ (
          if t == t' && o == o'
          then some (f (or_else (nested_get o (get t m)) []))
          else nested_get o' (get t' m))
  nested_get-set t t' o o' m f =
      let owners = or_else (get t m) [] in
      let bucket = f (or_else (get o owners) []) in
      ground (
        arith,
        get-set t t' (set o bucket owners) m,
        get-set o o' bucket owners,
        eq_iff t t',
        eq_iff o o',
      )

  -- What a call reads after an update by another: the updated bucket if tenant and owner of the
  -- two agree, and otherwise what it read before.
  pub get_bucket-update_bucket :
      (s : ScopedStore T) (c d : ServerCallContext) (f : JsMap T → JsMap T)
      → get_bucket (update_bucket s c f) d
        ≡ (if same_scope s c d then some (f (or_else (get_bucket s c) [])) else get_bucket s d)
  unfolding get_bucket update_bucket same_scope
  get_bucket-update_bucket s c d f =
      nested_get-set (tenant_key c) (tenant_key d) (owner_key s c) (owner_key s d) s.store f

  pub get_bucket_of_same_scope :
      (s : ScopedStore T) (c d : ServerCallContext)
      → same_scope s c d ≡ true
      → get_bucket s c ≡ get_bucket s d
  unfolding get_bucket same_scope
  get_bucket_of_same_scope s c d h = ground (
    arith,
    eq_iff (tenant_key c) (tenant_key d),
    eq_iff (s.owner_resolver c) (s.owner_resolver d),
  )

  pub same_scope_refl : (s : ScopedStore T) (c : ServerCallContext) → same_scope s c c ≡ true
  unfolding same_scope
  same_scope_refl s c = simp eq_refl
