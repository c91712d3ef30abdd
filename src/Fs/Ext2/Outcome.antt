-- ===== src/Fs/Ext2/Outcome.antt =====
-- What holds of the result of code over the state of kernel/fs/ext2/ext2.cpp, if it ends without a fault.
use influx.Base.{◌≡◌, refl, Bool, true, false, if◌then◌else◌}
use influx.Base.Run.{Run, ok, fault}
use influx.Fs.Ext2.Device.{Ext2, Fs, ◌>>=◌}

abbrev pub Ensures : {W A : Type 0} → (A → Type 0) → Run (A × Ext2 W) → Type 0
Ensures P (ok (a, s)) = P a
Ensures P (fault e) = Unit {0}

pub Ensures-any : {W A : Type 0} (r : Run (A × Ext2 W)) → Ensures (λ (a : A). Unit {0}) r
Ensures-any (ok (a, s)) = tt
Ensures-any (fault e) = tt

module _ {W A B : Type 0} (Q : B → Type 0) where
  -- After a call of which nothing is known, and after one with an outcome.
  pub Ensures-bind :
      (P : A → Type 0) (m : Fs W A) (f : A → Fs W B) (s : Ext2 W)
      → Ensures P (m s)
      → ((a : A) (s' : Ext2 W) → P a → Ensures Q (f a s'))
      → Ensures Q ((m >>= f) s)
  Ensures-bind P m f s first rest = go (m s) first
    where
      go : (r : Run (A × Ext2 W)) → Ensures P r → Ensures Q (((λ (t : Ext2 W). r) >>= f) s)
      go (ok (a, s')) h = rest a s' h
      go (fault e) h = tt

  pub Ensures-then :
      (m : Fs W A) (f : A → Fs W B) (s : Ext2 W)
      → ((a : A) (s' : Ext2 W) → Ensures Q (f a s'))
      → Ensures Q ((m >>= f) s)
  Ensures-then m f s rest =
      Ensures-bind (λ a. Unit {0}) m f s (Ensures-any (m s)) (λ a s' h. rest a s')

-- A branch on a test.
pub Ensures-if :
    {W A : Type 0} (P : A → Type 0) (test : Bool) (m n : Fs W A) (s : Ext2 W)
    → (test ≡ true → Ensures P (m s))
    → (test ≡ false → Ensures P (n s))
    → Ensures P ((if test then m else n) s)
Ensures-if P true m n s yes_case no_case = yes_case refl
Ensures-if P false m n s yes_case no_case = no_case refl
