-- ===== src/Events/Memory.antt =====
-- Redis keys held in memory: they show that what the code relies on can be met, and run the tests.
use smart_class_agent.Common.{
  ℕ, suc, refl, Option, none, some, List, [], ◌∷◌, ◌++◌, Text, ltb, if◌then◌else◌,
}
use smart_class_agent.Events.Store.{Redis, Entry, top, number, text_or_empty, rows_after}

pub record Memory : Type 0 where
  pub rows : List Entry
  pub last : Option ℕ
  pub written : Option Text

abbrev pub empty : Memory
empty = record { rows = []; last = none; written = none }

abbrev pub memory_redis : Redis
memory_redis = record {
  Keys = Memory;
  stream = λ k. k.rows;
  last_sequence = λ k. k.last;
  output = λ k. k.written;
  hincrby = λ k. (record k { last = some (suc (number k.last)) }, suc (number k.last));
  hset = λ n k. record k { last = some n };
  xadd = λ e k. (
    record k { rows = if ltb (top k.rows) e.sequence then k.rows ++ (e ∷ []) else k.rows },
    ltb (top k.rows) e.sequence,
  );
  append_text = λ t k. record k { written = some (text_or_empty k.written ++ t) };
  expire = λ s k. k;
  del = λ k. (empty, 3);
  xrange = λ cursor count k. rows_after cursor count k.rows;
  xread = λ cursor count k. rows_after cursor count k.rows;
  hincrby_value = λ k. refl;
  hincrby_last = λ k. refl;
  hincrby_stream = λ k. refl;
  hincrby_output = λ k. refl;
  hset_last = λ n k. refl;
  hset_stream = λ n k. refl;
  hset_output = λ n k. refl;
  xadd_accepted = λ e k. refl;
  xadd_stream = λ e k. refl;
  xadd_last = λ e k. refl;
  xadd_output = λ e k. refl;
  append_text_output = λ t k. refl;
  append_text_stream = λ t k. refl;
  append_text_last = λ t k. refl;
  expire_stream = λ s k. refl;
  expire_last = λ s k. refl;
  expire_output = λ s k. refl;
  del_stream = λ k. refl;
  del_last = λ k. refl;
  del_output = λ k. refl;
  xrange_rows = λ cursor count k. refl;
  xread_rows = λ cursor count k. refl;
}
