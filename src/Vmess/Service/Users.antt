-- ===== src/Vmess/Service/Users.antt =====
-- The user of a request (service.go: NewConnection, the loop over userIdCipher; protocol.go: AuthID).
use sing_vmess.Base.{
  ℕ, ◌/◌, ◌%◌, ◌≤◌, ◌<◌, ◌≡◌, refl, subst, true, false, some, List, [], ◌∷◌, ◌++◌, arith, ltb,
  lt→ltb, le→leb, ==_iff, length, take, drop, length-append, take_all, drop_all, All, ok, err,
  replay, Bytes, put_u32,
}
use sing_vmess.Vmess.Crypto.{Crypto, IsCrypto}
use sing_vmess.Vmess.Request.{put_u64, auth_block, auth_id}
use sing_vmess.Vmess.Service.{
  Filter, u32_of, u64_of, distance, timely, decoded_id, checksum_fits, find_user,
}

u32-put : (n : ℕ) → n < 4294967296 → u32_of (put_u32 n) ≡ n
u32-put n h = omega arith

u64-put : (n : ℕ) (rest : Bytes) → n < 9223372036854775808 → u64_of (put_u64 n ++ rest) ≡ n
u64-put n rest h =
    let high = u32-put (n / 4294967296) (omega arith) in
    let low = u32-put (n % 4294967296) (omega arith) in omega arith

module _ (c : Crypto) (laws : IsCrypto c) (key random : Bytes) (time : ℕ)
    (four : length random ≡ 4) where
  length-auth_block : length (auth_block c time random) ≡ 16
  length-auth_block =
      omega (arith, length-append random (put_u32 (c.crc32 (put_u64 time ++ random))))

  pub length-auth_id : length (auth_id c key time random) ≡ 16
  unfolding auth_id
  length-auth_id = laws.length-aes _ (auth_block c time random) length-auth_block

  pub decoded_id-auth_id : decoded_id c key (auth_id c key time random) ≡ auth_block c time random
  unfolding decoded_id auth_id
  decoded_id-auth_id = laws.aes_inverse-aes _ (auth_block c time random) length-auth_block

  checksum_fits-auth_block : checksum_fits c (auth_block c time random) ≡ true
  unfolding checksum_fits
  checksum_fits-auth_block =
      let sum = put_u32 (c.crc32 (put_u64 time ++ random)) in
      let taken : take 4 (random ++ sum) ≡ random =
        subst (λ n. take n (random ++ sum) ≡ random) four (take_all random sum) in
      let left : drop 4 (random ++ sum) ≡ sum =
        subst (λ n. drop n (random ++ sum) ≡ sum) four (drop_all random sum) in
      rw (taken, left, u32-put _ (laws.crc32-lt (put_u64 time ++ random))) ((==_iff _ _).1 refl)

  timely-auth_block :
      (now : ℕ)
      → time < 9223372036854775808
      → distance time now ≤ 120
      → timely now (auth_block c time random) ≡ true
  unfolding timely
  timely-auth_block now small near =
      let plain : ltb time 9223372036854775808 ≡ true = lt→ltb _ _ small in
      rw (u64-put time (random ++ put_u32 (c.crc32 (put_u64 time ++ random))) small, plain)
        (le→leb _ _ near)

  module _ {U F : Type 0} (filter : Filter F) where
    pub find_user-auth_id :
        (now : ℕ) (before later : List (U × Bytes)) (user : U) (f f' : F)
        → time < 9223372036854775808
        → distance time now ≤ 120
        → All (λ u. checksum_fits c (decoded_id c u.1 (auth_id c key time random)) ≡ false) before
        → filter.check (auth_block c time random) f ≡ (true, f')
        → find_user c filter now (auth_id c key time random) (before ++ ((user, key) ∷ later)) f
          ≡ ok (some (user, key)) f'
    unfolding find_user
    find_user-auth_id now [] later user f f' small near others new =
        rw (decoded_id-auth_id, checksum_fits-auth_block, timely-auth_block now small near, new)
          refl
    find_user-auth_id now (u ∷ before) later user f f' small near (other, others) new =
        rw other (find_user-auth_id now before later user f f' small near others new)

    -- A request whose decrypted id the replay filter has kept is refused, whatever the filter does
    -- with other bytes.
    pub find_user-replay :
        (now : ℕ) (before later : List (U × Bytes)) (user : U) (f f' : F)
        → time < 9223372036854775808
        → distance time now ≤ 120
        → All (λ u. checksum_fits c (decoded_id c u.1 (auth_id c key time random)) ≡ false) before
        → filter.check (auth_block c time random) f ≡ (false, f')
        → find_user c filter now (auth_id c key time random) (before ++ ((user, key) ∷ later)) f
          ≡ err replay f'
    unfolding find_user
    find_user-replay now [] later user f f' small near others old =
        rw (decoded_id-auth_id, checksum_fits-auth_block, timely-auth_block now small near, old)
          refl
    find_user-replay now (u ∷ before) later user f f' small near (other, others) old =
        rw other (find_user-replay now before later user f f' small near others old)
