-- ===== src/Fs/Toy.antt =====
-- A small C library that keeps its files in memory, and its laws.
use bit_magic_zi_modem.Base.{
  ℕ, ◌+◌, ◌≡◌, refl, sym, ap, subst, ◌∙◌, Bool, true, false, Option, none, some, List, [], ◌∷◌,
  ◌++◌, codes, length, drop, take, ◌==◌, ==_iff, if◌then◌else◌, bytes_eq, bytes_eq_refl,
}
use bit_magic_zi_modem.Fs.{Stdio, Whence, from_start, at_end}
use bit_magic_zi_modem.Fs.Laws.{Opened, StreamLaws}

pub record Memory : Type 0 where
  pub disk : List ℕ → Option (List ℕ)
  pub streams : ℕ → Option Opened
  pub next : ℕ

abbrev pub update : (ℕ → Option Opened) → ℕ → Option Opened → ℕ → Option Opened
update f h o j = if j == h then o else f j

update_self : (f : ℕ → Option Opened) (h : ℕ) (o : Option Opened) → update f h o h ≡ o
update_self f h o = rw ((==_iff h h).1 refl)

abbrev pub fresh_stream : Memory → Opened → Option ℕ × Memory
fresh_stream m o =
    (some m.next, record m { streams = update m.streams m.next (some o); next = m.next + 1 })

abbrev pub open_old : Memory → List ℕ → Option (List ℕ) → Option ℕ × Memory
open_old m path none = (none, m)
open_old m path (some bs) = fresh_stream m (record { path = path; bytes = bs; at = 0 })

abbrev pub memory_open : Memory → List ℕ → Bool → Option ℕ × Memory
memory_open m path true = fresh_stream m (record { path = path; bytes = []; at = 0 })
memory_open m path false = open_old m path (m.disk path)

abbrev pub store : (List ℕ → Option (List ℕ)) → List ℕ → List ℕ → List ℕ → Option (List ℕ)
store f path bs p = if bytes_eq p path then some bs else f p

abbrev pub memory_close : Memory → ℕ → Option Opened → Bool × Memory
memory_close m h none = (false, m)
memory_close m h (some o) =
    (true, record m { disk = store m.disk o.path o.bytes; streams = update m.streams h none })

-- The stream with another position, or with a byte more.
abbrev pub moved : Memory → ℕ → Option Opened → ℕ → Memory
moved m h none k = m
moved m h (some o) k = record m { streams = update m.streams h (some (record o { at = k })) }

abbrev pub memory_get : Memory → ℕ → Option Opened → List ℕ → Option ℕ × Memory
memory_get m h none rest = (none, m)
memory_get m h (some o) [] = (none, m)
memory_get m h (some o) (c ∷ rest) = (some c, moved m h (some o) (o.at + 1))

abbrev pub left_in : Option Opened → List ℕ
left_in none = []
left_in (some o) = drop o.at o.bytes

abbrev pub memory_put : Memory → ℕ → Option Opened → ℕ → Bool × Memory
memory_put m h none b = (false, m)
memory_put m h (some o) b = (
  true,
  record m {
    streams = update m.streams h (some (record o { bytes = o.bytes ++ (b ∷ []); at = o.at + 1 }));
  },
)

abbrev pub position : Option Opened → ℕ
position none = 0
position (some o) = o.at

abbrev pub end_of : Option Opened → ℕ
end_of none = 0
end_of (some o) = length o.bytes

abbrev pub memory_seek : Memory → ℕ → Whence → Memory
memory_seek m h (from_start k) = moved m h (m.streams h) k
memory_seek m h at_end = moved m h (m.streams h) (end_of (m.streams h))

abbrev pub memory : Stdio
memory = record {
  World = Memory;
  fopen = λ m path mode. memory_open m path (bytes_eq mode (codes "wb"));
  fclose = λ m h. memory_close m h (m.streams h);
  fgetc = λ m h. memory_get m h (m.streams h) (left_in (m.streams h));
  fputc = λ m h b. memory_put m h (m.streams h) b;
  fread = λ m h n. (take n (left_in (m.streams h)), m);
  ftell = λ m h. position (m.streams h);
  fseek = memory_seek;
  fflush = λ m h. m;
  join = λ a b. a ++ (47 ∷ b);
  create_directories = λ m path. (true, m);
  temp_directory_path = λ m. codes "/tmp";
  random_name = λ m. (codes "1", m);
  exists = λ m path. false;
  remove = λ m path. (false, m);
  remove_all = λ m path. (bytes_eq path (codes "/r/b"), m);
  directory_entries = λ m path. some (
      record { path = codes "/r/a"; is_regular = true; size = 3 }
      ∷ record { path = codes "/r/b"; is_regular = true; size = 4 }
      ∷ []);
  all_entries = λ m path. some [];
}

pub memory_tells :
    (m : Memory) (h : ℕ) (o : Opened) → m.streams h ≡ some o → position (m.streams h) ≡ o.at
memory_tells m h o p = ap position p

pub memory_seeks :
    (m : Memory) (h k : ℕ) (o : Opened)
    → m.streams h ≡ some o
    → (moved m h (m.streams h) k).streams h ≡ some (record o { at = k })
memory_seeks m h k o p =
    ap (λ x. (moved m h x k).streams h) p ∙ update_self m.streams h (some (record o { at = k }))

pub memory_seeks_end :
    (m : Memory) (h : ℕ) (o : Opened)
    → m.streams h ≡ some o
    → (moved m h (m.streams h) (end_of (m.streams h))).streams h
      ≡ some (record o { at = length o.bytes })
memory_seeks_end m h o p =
    ap (λ x. (moved m h (m.streams h) (end_of x)).streams h) p
    ∙ memory_seeks m h (length o.bytes) o p

pub memory_gets :
    (m : Memory) (h c : ℕ) (rest : List ℕ) (o : Opened)
    → m.streams h ≡ some o
    → drop o.at o.bytes ≡ c ∷ rest
    → let r = memory_get m h (m.streams h) (left_in (m.streams h)) in
      (r.0 ≡ some c) × (r.1.streams h ≡ some (record o { at = o.at + 1 }))
memory_gets m h c rest o p d =
    let q : memory_get m h (m.streams h) (left_in (m.streams h))
        ≡ memory_get m h (some o) (c ∷ rest) =
      ap (λ x. memory_get m h x (left_in x)) p ∙ ap (memory_get m h (some o)) d in
    (
      ap (λ r. r.0) q,
      ap (λ r. r.1.streams h) q ∙ update_self m.streams h (some (record o { at = o.at + 1 })),
    )

pub memory_gets_eof :
    (m : Memory) (h : ℕ) (o : Opened)
    → m.streams h ≡ some o
    → drop o.at o.bytes ≡ []
    → let r = memory_get m h (m.streams h) (left_in (m.streams h)) in
      (r.0 ≡ none) × (r.1.streams h ≡ some o)
memory_gets_eof m h o p d =
    let q : memory_get m h (m.streams h) (left_in (m.streams h)) ≡ memory_get m h (some o) [] =
      ap (λ x. memory_get m h x (left_in x)) p ∙ ap (memory_get m h (some o)) d in
    (ap (λ r. r.0) q, ap (λ r. r.1.streams h) q ∙ p)

pub memory_puts :
    (m : Memory) (h b : ℕ) (o : Opened)
    → m.streams h ≡ some o
    → (memory_put m h (m.streams h) b).1.streams h
      ≡ some (record o { bytes = o.bytes ++ (b ∷ []); at = o.at + 1 })
memory_puts m h b o p =
    ap (λ x. (memory_put m h x b).1.streams h) p
    ∙ update_self m.streams h (some (record o { bytes = o.bytes ++ (b ∷ []); at = o.at + 1 }))

pub memory_puts_fails :
    (m : Memory) (h b : ℕ) (o : Opened)
    → m.streams h ≡ some o
    → (memory_put m h (m.streams h) b).0 ≡ false
    → (memory_put m h (m.streams h) b).1.streams h ≡ some o
memory_puts_fails m h b o p f = absurd (cc (ap (λ x. (memory_put m h x b).0) p, f))

pub fresh_opened :
    (m : Memory) (o : Opened) (h : ℕ)
    → (fresh_stream m o).0 ≡ some h
    → (fresh_stream m o).1.streams h ≡ some o
fresh_opened m o h e =
    subst (λ k. (fresh_stream m o).1.streams k ≡ some o)
      (ap (λ (x : Option ℕ). elim x [ none ↦ 0 | some k ↦ k ]) e)
      (update_self m.streams m.next (some o))

pub memory_opens_old :
    (m : Memory) (path bs : List ℕ) (h : ℕ)
    → m.disk path ≡ some bs
    → (open_old m path (m.disk path)).0 ≡ some h
    → (open_old m path (m.disk path)).1.streams h
      ≡ some (record { path = path; bytes = bs; at = 0 })
memory_opens_old m path bs h p e =
    ap (λ x. (open_old m path x).1.streams h) p
    ∙ fresh_opened m (record { path = path; bytes = bs; at = 0 }) h
        (sym (ap (λ x. (open_old m path x).0) p) ∙ e)

pub memory_closes :
    (m : Memory) (h : ℕ) (o : Opened)
    → m.streams h ≡ some o
    → (memory_close m h (m.streams h)).1.disk o.path ≡ some o.bytes
memory_closes m h o p =
    ap (λ x. (memory_close m h x).1.disk o.path) p ∙ rw (bytes_eq_refl o.path) refl

abbrev pub memory_laws : StreamLaws memory
memory_laws = record {
  opened = λ m h. m.streams h;
  stored = λ m path. m.disk path;
  tells = memory_tells;
  seeks = λ m h k o p b. memory_seeks m h k o p;
  seeks_end = memory_seeks_end;
  gets = memory_gets;
  gets_eof = memory_gets_eof;
  puts = λ m h b o p e t. memory_puts m h b o p;
  puts_fails = memory_puts_fails;
  opens_new = λ m path h e. fresh_opened m (record { path = path; bytes = []; at = 0 }) h e;
  opens_old = memory_opens_old;
  closes = λ m h o p t. memory_closes m h o p;
}
