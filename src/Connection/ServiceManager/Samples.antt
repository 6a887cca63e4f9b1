-- ===== src/Connection/ServiceManager/Samples.antt =====
-- A list for the `LruCache`.
use redisson_rs.Base.{String, [], string_eq, arith, refl}
use redisson_rs.Base.Assoc.{Assoc, lookup, insert, lookup-insert}
use redisson_rs.Connection.ServiceManager.{LruCache, IsLru}

abbrev pub lists : LruCache
lists = record {
  Cache = Assoc String String;
  empty = [];
  get = λ k c. (c, lookup k c);
  put = insert;
  peek = lookup;
}

pub lists-IsLru : IsLru lists
unfolding lookup
lists-IsLru = record {
  peek-empty = λ k. refl;
  get_peek = λ k c. refl;
  peek-get = λ k j c. refl;
  peek-put = λ k j v u c there. ground (arith, lookup-insert k j v c, string_eq.beq_iff k j);
}
