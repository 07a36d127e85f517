-- ===== src/Format/Tests.antt =====
-- A few formats.
use s_os.Base.{ℕ, ◌-◌, ◌%◌, ◌^◌, ◌≡◌, some, List, [], ◌∷◌, refl, replicate}
use s_os.Base.Int.{negsuc}
use s_os.Format.{word, vsprintf, Output}
use s_os.Format.Total.{vsprintf-total}
use s_os.Format.Signed.{vsprintf-signed}
use s_os.Printk.{number}

-- -1 is printed as 4294967295.
vsprintf-signed_example :
    (out : List ℕ) × (vsprintf (37 ∷ (100 ∷ [])) (word (2 ^ 64 - 1) ∷ [])
      ≡ some (record { str = out; writes = []; args = [] }))
    × (number ((2 ^ 64 - 1) % 2 ^ 32) 10 (negsuc 0) (negsuc 0) 0 ≡ some out)
vsprintf-signed_example = vsprintf-signed (2 ^ 64 - 1)

-- `%*.*lx\n` takes three words.
vsprintf-total_example :
    (o : Output) × (vsprintf
        (37 ∷ (42 ∷ (46 ∷ (42 ∷ (108 ∷ (120 ∷ (10 ∷ [])))))))
        (replicate 21 (word 12))
      ≡ some o)
vsprintf-total_example =
    vsprintf-total (37 ∷ (42 ∷ (46 ∷ (42 ∷ (108 ∷ (120 ∷ (10 ∷ []))))))) (replicate 21 (word 12))
      refl tt
