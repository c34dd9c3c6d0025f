-- ===== src/Tests/Files.antt =====
-- The theorems of kern/fs at concrete disks, caches and tables.
use mcertikos.Base.{
  ℕ, ◌+◌, ◌<◌, ◌≡◌, ◌⊎◌, inl, inr, refl, arith, true, false, ◌==◌, if◌then◌else◌, List, [], ◌∷◌, ok,
}
use mcertikos.Fs.Disk.{Block, reboot}
use mcertikos.Fs.Log.{Log, log_size, log_init}
use mcertikos.Fs.Log.Recovery.{Recoveries}
use mcertikos.Fs.Log.Transaction.{transaction, written, transaction-atomic}
use mcertikos.Fs.Bufcache.{Buf, Cache, bufcache_read, on_disk}
use mcertikos.Fs.Bufcache.View.{IsView, IsHeld}
use mcertikos.Fs.Bufcache.Read.{IsReady, bufcache_read-IsHeld}
use mcertikos.Fs.Bufcache.Cycle.{write_back, revised, write_back-IsView}

-- A disk of 30 blocks with a log of ten, which starts at block 20.
abbrev super : Block
super i = if i == 0 then 30 else if i == 3 then 10 else 0

abbrev disk : ℕ → Block
disk a = if a == 1 then super else λ _. 0

abbrev idle : Log
idle = record {
  store = reboot disk 100;
  start = 20;
  size = 10;
  busy = 0;
  n = 0;
  sector = λ _. 0;
  pinned = 0;
}

-- Two blocks are written, one of them twice.
abbrev writes : List (ℕ × Block)
writes = (5, λ _. 1) ∷ (6, λ _. 2) ∷ (5, λ _. 3) ∷ []

transaction-atomic_example :
    (l' : Log) × (transaction writes idle ≡ ok (tt, l'))
    × (l'.busy ≡ 0)
    × ((d : ℕ → Block) (power : ℕ)
        → Recoveries l'.disk d
        → log_size < power
        → let final = (log_init (reboot d power)).disk in
          (((a : ℕ) → a < 20 → final a ≡ disk a)
            ⊎ ((a : ℕ) → a < 20 → final a ≡ written writes disk a))
          × (3 < 100 → (a : ℕ) → a < 20 → final a ≡ written writes disk a))
transaction-atomic_example =
    transaction-atomic idle
      (record {
        busy = refl;
        none = refl;
        alone = refl;
        clean = refl;
        past = omega arith;
        super = refl;
      })
      writes (omega arith) (omega arith)
      (omega arith, omega arith, (omega arith, omega arith, (omega arith, omega arith, tt)))

-- One buffer, which nobody has used.
abbrev blank : Buf
blank = record {
  busy = false;
  valid = false;
  dirty = false;
  dev = 0;
  sector = 0;
  contents = λ _. 0;
}

abbrev cold : Cache
cold = record {
  buf = λ _. blank;
  order = 0 ∷ [];
  disk = λ dev sector _. dev + sector;
  havedisk1 = true;
}

abbrev seen : ℕ → ℕ → Block
seen = on_disk cold.disk

cold-IsView : IsView seen cold
cold-IsView = record {
  cached = λ b i valid. cc;
  stored = λ dev sector lt s_lt. inl refl;
  clean = λ b i invalid. refl;
  unique = λ dev sector a b i j lt p q. elim i [
    | inl e ↦ elim j [ inl f ↦ omega (arith, e, f) | inr f ↦ absurd f ]
    | inr e ↦ absurd e
  ];
}

cold-IsReady : IsReady 1 5 cold
cold-IsReady = record { idle = λ b i name. refl; spare = (0, inl refl, refl); disks = refl }

bufcache_read-IsHeld_example :
    (b : ℕ) × (c' : Cache) × (bufcache_read 1 5 cold ≡ ok (b, c')) × IsHeld seen 1 5 b c'
bufcache_read-IsHeld_example =
    bufcache_read-IsHeld seen 1 5 cold (omega arith) (omega arith) cold-IsView cold-IsReady

-- The same buffer, in the hands of a client that has read sector 5.
abbrev warm : Cache
warm = record cold {
  buf = λ _. record {
    busy = true;
    valid = true;
    dirty = false;
    dev = 1;
    sector = 5;
    contents = seen 1 5;
  };
}

warm-IsHeld : IsHeld seen 1 5 0 warm
warm-IsHeld = record {
  view = record {
    cached = λ b i valid. refl;
    stored = λ dev sector lt s_lt. inl refl;
    clean = λ b i invalid. refl;
    unique = λ dev sector a b i j lt p q. elim i [
      | inl e ↦ elim j [ inl f ↦ omega (arith, e, f) | inr f ↦ absurd f ]
      | inr e ↦ absurd e
    ];
  };
  in_ring = inl refl;
  busy = refl;
  valid = refl;
  dev_is = refl;
  sector_is = refl;
  contents = refl;
  synced = inr refl;
  disks = refl;
}

write_back-IsView_example :
    (c' : Cache) × (write_back 0 (λ _. 7) warm ≡ ok (tt, c'))
    × IsView (revised seen 1 5 (λ _. 7)) c'
    × (on_disk c'.disk 1 5 ≡ (λ _. 7))
write_back-IsView_example =
    write_back-IsView seen 1 5 0 warm warm-IsHeld (λ _. 7) (omega arith) (omega arith)
