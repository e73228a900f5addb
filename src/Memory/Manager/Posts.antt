-- ===== src/Memory/Manager/Posts.antt =====
-- How often the cloud manager sends the messages, and when it returns.
use Prim.Native.Nat.{max}
use memori.Prelude.{
  ℕ, zero, suc, ◌+◌, ◌-◌, ◌≤◌, ◌<◌, ◌≡◌, refl, ap, sym, subst, true, Option, none, some, List,
  arith, Bool-cases, inl, inr, ◌==◌, if◌then◌else◌,
}
use memori.Exec.{Exc, Result, ok, err}
use memori.Conn.{Env}
use memori.Memory.Config.{Config, App}
use memori.Memory.Writer.{ConversationMessage}
use memori.Memory.Manager.{
  Cloud, Api, after_local, after_post, round, rounds, handle_cloud, persist_cloud_messages_locally,
}

==_sound : (a b : ℕ) → (a == b) ≡ true → a ≡ b
==_sound a b h = ground arith

module _ (env : Env) (post : Api) (config : Config) (messages : List ConversationMessage) where
  posts-after_local : (n : ℕ) (r : Result (Unit {0}) × App) → (after_local n r).1.posts ≡ n
  posts-after_local n (ok u, app) = refl
  posts-after_local n (err e, app) = refl

  posts-after_post :
      (r : Result ℕ) (c : Cloud) → (after_post env post config messages r c).1.posts ≡ suc c.posts
  posts-after_post (ok status) c = elim (Bool-cases (status == 201)) [
    | inl created ↦ rw created (posts-after_local (suc c.posts) _)
    | inr not_created ↦ rw not_created refl
  ]
  posts-after_post (err e) c = refl

  -- A round that ends in 201 was answered by 201.
  created-after_post :
      (r : Result ℕ) (c : Cloud) → (after_post env post config messages r c).0 ≡ ok 201 → r ≡ ok 201
  created-after_post (ok status) c h = elim (Bool-cases (status == 201)) [
    | inl created ↦ ground arith
    | inr not_created ↦ ground arith
  ]
  created-after_post (err e) c h = cc

  -- Between one request and as many as there are rounds; and if it returns, the last was answered
  -- by 201.
  abbrev pub Sends : ℕ → Cloud → Result (Unit {0}) × Cloud → Type 0
  Sends k c (ok _, c') =
      (c.posts < c'.posts) × (c'.posts ≤ c.posts + k) × (post (c'.posts - 1) ≡ ok 201)
  Sends k c (err _, c') = c'.posts ≡ c.posts + k

  rounds-Sends :
      (last : Option Exc) (k : ℕ) (c : Cloud) → Sends k c (rounds env post config messages last k c)
  unfolding rounds round
  rounds-Sends last zero c = omega arith
  rounds-Sends last (suc k) c =
      go (after_post env post config messages (post c.posts) c) (posts-after_post (post c.posts) c)
        (created-after_post (post c.posts) c) (λ l c'. rounds-Sends l k c')
    where
      later :
          (c' : Cloud) (r : Result (Unit {0}) × Cloud)
          → c'.posts ≡ suc c.posts
          → Sends k c' r
          → Sends (suc k) c r
      later c' (ok u, d) e w = (omega arith, omega arith, w.2)
      later c' (err x, d) e w = omega arith

      go :
          (r : Result ℕ × Cloud)
          → r.1.posts ≡ suc c.posts
          → (r.0 ≡ ok 201 → post c.posts ≡ ok 201)
          → ((l : Option Exc) (c' : Cloud) → Sends k c' (rounds env post config messages l k c'))
          → Sends (suc k) c (elim r.0 as (λ _. Result (Unit {0}) × Cloud) [
            | ok status ↦
                if status == 201 then (ok tt, r.1) else rounds env post config messages none k r.1
            | err e ↦ rounds env post config messages (some e) k r.1
          ])
      go (ok status, c') e created rest = elim (Bool-cases (status == 201)) [
        | inl is ↦ rw is (
          omega arith,
          omega arith,
          let before : c'.posts - 1 ≡ c.posts = omega arith in
              rw before (created (ap {B = Result ℕ} ok (==_sound status 201 is))),
        )
        | inr is_not ↦
            rw is_not (later c' (rounds env post config messages none k c') e (rest none c'))
      ]
      go (err x, c') e created rest =
          later c' (rounds env post config messages (some x) k c') e (rest (some x) c')

-- `_handle_cloud` ends: it returns after at least one and at most `max(1, request_num_backoff)`
-- requests, of which the last was answered by 201; or it raises after exactly that many.
pub handle_cloud-Sends :
    (env : Env) (post : Api) (config : Config) (messages : List ConversationMessage) (c : Cloud)
    → Sends env post config messages
        (max 1 config.request_num_backoff)
        c
        (handle_cloud env post config messages c)
unfolding handle_cloud
handle_cloud-Sends env post config messages c =
    rounds-Sends env post config messages none (max 1 config.request_num_backoff) c

Sends-some :
    (env : Env) (post : Api) (config : Config) (messages : List ConversationMessage) (k : ℕ)
    (c : Cloud) (r : Result (Unit {0}) × Cloud)
    → 0 < k
    → Sends env post config messages k c r
    → c.posts < r.1.posts
Sends-some env post config messages k c (ok u, d) left s = s.0
Sends-some env post config messages k c (err e, d) left s = omega arith

module _ (env : Env) (post : Api) (config : Config) (messages : List ConversationMessage)
    (c : Cloud) (e : Exc) (created : post c.posts ≡ ok 201)
    (failed : (persist_cloud_messages_locally env config messages c.app).0 ≡ err e) where
  after_local-failed :
      (r : Result (Unit {0}) × App) → r.0 ≡ err e → (after_local (suc c.posts) r).0 ≡ err e
  after_local-failed (ok u, app) h = cc
  after_local-failed (err x, app) h = cc

  round-failed : (round env post config messages c).0 ≡ err e
  unfolding round
  round-failed = rw created (after_local-failed _ failed)

  rounds-again :
      (k : ℕ) → 0 < k → c.posts + 2 ≤ (rounds env post config messages none (suc k) c).1.posts
  unfolding rounds
  rounds-again k left =
      let posts : (round env post config messages c).1.posts ≡ suc c.posts =
        unfold round in posts-after_post env post config messages (post c.posts) c in
      rw (round-failed, rounds)
        (omega (
          arith,
          posts,
          Sends-some env post config messages k (round env post config messages c).1
              (rounds env post config messages (some e) k (round env post config messages c).1) left
              (rounds-Sends env post config messages (some e) k
                (round env post config messages c).1),
        ))

-- If the first request is answered by 201 and the local copy then raises, and more than one round
-- is configured, the same messages are sent to the cloud at least once more.
pub local_failure_sends_again :
    (env : Env) (post : Api) (config : Config) (messages : List ConversationMessage) (c : Cloud)
    (e : Exc)
    → post c.posts ≡ ok 201
    → (persist_cloud_messages_locally env config messages c.app).0 ≡ err e
    → 1 < config.request_num_backoff
    → c.posts + 2 ≤ (handle_cloud env post config messages c).1.posts
unfolding handle_cloud
local_failure_sends_again env post config messages c e created failed more =
    let count : max 1 config.request_num_backoff ≡ suc (config.request_num_backoff - 1) =
      omega arith in
    subst (λ n. c.posts + 2 ≤ (rounds env post config messages none n c).1.posts) (sym count)
      (rounds-again env post config messages c e created failed (config.request_num_backoff - 1)
        (omega arith))
