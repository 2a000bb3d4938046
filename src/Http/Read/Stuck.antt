-- ===== src/Http/Read/Stuck.antt =====
-- A read that ends inside a query or a fragment.
use libyimmo.Base.{ℕ, false, zero, suc, ◌+◌, ◌≡◌, ◌⊎◌, inl, inr, refl, ap, ◌∙◌, List, ◌∷◌, arith}
use libyimmo.Http.HeaderTable.{Memory}
use libyimmo.Http.Exchange.{request_query, request_fragment, Exchange}
use libyimmo.Http.Headers.{Strtol}
use libyimmo.Http.Body.{BodyCb}
use libyimmo.Base.{drop, length, ltb, if◌then◌else◌}
use libyimmo.Http.Read.{read_overrun, read_unfinished, read_switch, read_loop}

not_less : (cs : List ℕ) → ltb (suc (length cs)) 0 ≡ false
not_less cs = ground arith

-- Where the exchange is in the query or in the fragment of its request line, and there are bytes to
-- read, no number of rounds is enough: the loop of `ymo_proto_http_read` does not end.
pub read_loop-stuck :
    {S : Type 0} (memory : Memory) (strtol : List ℕ → Strtol) (body_cb : BodyCb S) (fuel n : ℕ)
    (e : Exchange) (c : ℕ) (cs : List ℕ) (s : S)
    → (e.state ≡ request_query) ⊎ (e.state ≡ request_fragment)
    → read_loop memory strtol body_cb fuel n e (c ∷ cs) s ≡ read_unfinished
unfolding read_loop read_switch
read_loop-stuck memory strtol body_cb zero n e c cs s inside = refl
read_loop-stuck memory strtol body_cb (suc fuel) n e c cs s (inl query) =
    ap
      (λ st. read_switch memory strtol body_cb st n e c cs s (λ k e' s'.
        if ltb (length (c ∷ cs)) k
        then read_overrun
        else read_loop memory strtol body_cb fuel (n + k) e' (drop k (c ∷ cs)) s'))
      query
    ∙ rw (not_less cs) (read_loop-stuck memory strtol body_cb fuel (n + 0) e c cs s (inl query))
read_loop-stuck memory strtol body_cb (suc fuel) n e c cs s (inr fragment) =
    ap
      (λ st. read_switch memory strtol body_cb st n e c cs s (λ k e' s'.
        if ltb (length (c ∷ cs)) k
        then read_overrun
        else read_loop memory strtol body_cb fuel (n + k) e' (drop k (c ∷ cs)) s'))
      fragment
    ∙ rw (not_less cs) (read_loop-stuck memory strtol body_cb fuel (n + 0) e c cs s (inr fragment))
