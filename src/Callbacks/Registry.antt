-- ===== src/Callbacks/Registry.antt =====
-- The tokens that `NewCallbackHandle` gives out.
use zigo.Prelude.{ℕ, ◌+◌, ◌≤◌, ◌<◌, ◌≡◌, ◌≢◌, ◌⊎◌, false, some, word, arith}
use zigo.Callbacks.{Callbacks, next_token, new_callback_handle, acquire_callback}

-- All live tokens were given out by the counter.
abbrev pub Issued : Callbacks → Type 0
Issued c = (t : ℕ) → (c.registered t ≡ false) ⊎ ((0 < t) × (t ≤ c.next_token))

not-Issued : (c : Callbacks) (t : ℕ) → c.next_token < t → Issued c → c.registered t ≡ false
not-Issued c t later issued = ground (arith, issued t)

-- Fewer than 2 ^ 64 - 1 tokens have been given out: a new one is not 0 and no live entry has it, it
-- stands for the value that was registered, and no other entry changes.
pub new_callback_handle-Issued :
    (value : ℕ) (c : Callbacks)
    → Issued c
    → c.next_token + 1 < word
    → let (c', token) = new_callback_handle value c in
      (0 < token)
      × (c.registered token ≡ false)
      × ((acquire_callback token c').1 ≡ some (some value))
      × ((t : ℕ) → (t ≡ token) ⊎ (c'.entries t ≡ c.entries t))
      × Issued c'
unfolding new_callback_handle next_token acquire_callback
new_callback_handle-Issued value c issued small =
    let token = c.next_token + 1 in
    let counts : next_token c.next_token ≡ token = ground arith in
    let fresh : c.registered token ≡ false = not-Issued c token (omega arith) issued in
    (ground arith, ground arith, ground arith, λ t. ground arith, λ t. ground (arith, issued t))

-- The counter's wrap-around is survived: a token is never 0, which means no callback.
pub next_token_nonzero : (n : ℕ) → next_token n ≢ 0
unfolding next_token
next_token_nonzero n = ground arith
