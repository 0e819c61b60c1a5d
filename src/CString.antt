-- ===== src/CString.antt =====
-- lib/string.c: blocks of bytes and strings, over a memory of bytes, with valid pointers. A pointer is an address; a null
-- pointer that is returned is `none`. A loop that runs to the end of a string takes fuel, for the bytes that
-- it looks at, and is `none` beyond.
pub mod Copy
pub mod Bounded
pub mod Compare
mod Tests
use pintos_vm.Base.Int.{ℤ, pos, negsuc}
use pintos_vm.Base.{
  ℕ, zero, suc, ◌+◌, ◌-◌, ◌%◌, Bool, true, false, not, ◌&&◌, Option, none, some, ◌==◌, ltb, leb,
  if◌then◌else◌, update, ◌>>=◌, ◌>>◌, assert,
}

abbrev pub Bytes : Type 0
Bytes = ℕ → ℕ

-- `while (size-- > 0) *dst++ = *src++;`
pub copy_up : ℕ → ℕ → ℕ → Bytes → Bytes
copy_up zero dst src m = m
copy_up (suc n) dst src m = copy_up n (dst + 1) (src + 1) (update m dst (m src))

-- `while (size-- > 0) *--dst = *--src;` from the ends of both blocks.
pub copy_down : ℕ → ℕ → ℕ → Bytes → Bytes
copy_down zero dst src m = m
copy_down (suc n) dst src m = copy_down n dst src (update m (dst + n) (m (src + n)))

-- The result and the memory.
abbrev pub memcpy : ℕ → ℕ → ℕ → Bytes → ℕ × Bytes
memcpy dst src size m = (dst, copy_up size dst src m)

-- The forward loop moves `dst`, which the source returns.
pub memmove : ℕ → ℕ → ℕ → Bytes → ℕ × Bytes
unfolding copy_up copy_down
memmove dst src size m =
    if ltb dst src then (dst + size, copy_up size dst src m) else (dst, copy_down size dst src m)

pub memcmp : ℕ → ℕ → ℕ → Bytes → ℤ
memcmp a b zero m = pos 0
memcmp a b (suc size) m =
    let rest = memcmp (a + 1) (b + 1) size m in
    if not (m a == m b) then (if ltb (m b) (m a) then pos 1 else negsuc 0) else rest

pub strcmp : ℕ → ℕ → ℕ → Bytes → Option ℤ
strcmp zero a b m = none
strcmp (suc fuel) a b m =
    let rest = strcmp fuel (a + 1) (b + 1) m in
    if not (m a == 0) && (m a == m b)
    then rest
    else some (if ltb (m a) (m b) then negsuc 0 else (if ltb (m b) (m a) then pos 1 else pos 0))

pub memchr : ℕ → ℕ → ℕ → Bytes → Option ℕ
memchr block ch zero m = none
memchr block ch (suc size) m =
    let rest = memchr (block + 1) ch size m in if m block == ch % 256 then some block else rest

-- The pointer or NULL, if the fuel reaches it; `c` is the `char`.
pub strchr : ℕ → ℕ → ℕ → Bytes → Option (Option ℕ)
strchr zero string c m = none
strchr (suc fuel) string c m =
    let rest = strchr fuel (string + 1) c m in
    if m string == c then some (some string) else (if m string == 0 then some none else rest)

abbrev pub is_found : Option ℕ → Bool
is_found none = false
is_found (some p) = true

-- The initial characters of a string that do not stand (`stop` true) or stand in another.
abbrev pub span_from : Bool → ℕ → ℕ → ℕ → Bytes → Option ℕ
span_from stop zero string set m = none
span_from stop (suc fuel) string set m =
    let rest = span_from stop fuel (string + 1) set m in
    if m string == 0
    then some 0
    else (strchr (suc fuel) set (m string) m >>= λ r.
        if (if stop then is_found r else not (is_found r))
        then some 0
        else (rest >>= λ n. some (suc n)))

pub strcspn : ℕ → ℕ → ℕ → Bytes → Option ℕ
strcspn fuel string stop m = span_from true fuel string stop m

pub strspn : ℕ → ℕ → ℕ → Bytes → Option ℕ
strspn fuel string skip m = span_from false fuel string skip m

pub strpbrk : ℕ → ℕ → ℕ → Bytes → Option (Option ℕ)
unfolding strchr
strpbrk zero string stop m = none
strpbrk (suc fuel) string stop m =
    let rest = strpbrk fuel (string + 1) stop m in
    if m string == 0
    then some none
    else (strchr (suc fuel) stop (m string) m >>= λ r.
        if is_found r then some (some string) else rest)

-- `p` is the last occurrence so far.
pub strrchr_from : ℕ → ℕ → ℕ → Option ℕ → Bytes → Option (Option ℕ)
strrchr_from zero string c p m = none
strrchr_from (suc fuel) string c p m =
    let rest = strrchr_from fuel (string + 1) c (if m string == c then some string else p) m in
    if m string == 0 then some p else rest

pub strrchr : ℕ → ℕ → ℕ → Bytes → Option (Option ℕ)
unfolding strrchr_from
strrchr fuel string c m = strrchr_from fuel string c none m

unfoldable pub strlen : ℕ → ℕ → Bytes → Option ℕ
strlen zero string m = none
strlen (suc fuel) string m =
    let rest = strlen fuel (string + 1) m in
    if m string == 0 then some 0 else (rest >>= λ n. some (suc n))

pub strnlen : ℕ → ℕ → Bytes → ℕ
strnlen string zero m = 0
strnlen string (suc maxlen) m =
    let rest = strnlen (string + 1) maxlen m in if m string == 0 then 0 else suc rest

-- `!` of an `int`.
abbrev pub is_zero : ℤ → Bool
is_zero (pos zero) = true
is_zero (pos (suc k)) = false
is_zero (negsuc k) = false

-- The loop of `strstr`, with `n` positions left from `h` on.
pub search_from : ℕ → ℕ → ℕ → ℕ → Bytes → Option ℕ
unfolding memcmp
search_from zero h needle len m = none
search_from (suc n) h needle len m =
    let rest = search_from n (h + 1) needle len m in
    if is_zero (memcmp h needle len m) then some h else rest

pub strstr : ℕ → ℕ → ℕ → Bytes → Option (Option ℕ)
unfolding strlen search_from
strstr fuel haystack needle m = strlen fuel haystack m >>= λ haystack_len.
    strlen fuel needle m >>= λ needle_len. some (
      if leb needle_len haystack_len
      then search_from (haystack_len - needle_len + 1) haystack needle needle_len m
      else none)

pub memset : ℕ → ℕ → ℕ → Bytes → Bytes
memset dst value zero m = m
memset dst value (suc size) m = memset (dst + 1) value size (update m dst (value % 256))

pub strlcpy : ℕ → ℕ → ℕ → ℕ → Bytes → Option (ℕ × Bytes)
unfolding strlen copy_up
strlcpy fuel dst src size m = strlen fuel src m >>= λ src_len.
    let dst_len = if ltb src_len (size - 1) then src_len else size - 1 in
    some (src_len, if ltb 0 size then update (copy_up dst_len dst src m) (dst + dst_len) 0 else m)

pub strlcat : ℕ → ℕ → ℕ → ℕ → Bytes → Option (ℕ × Bytes)
unfolding strlen copy_up
strlcat fuel dst src size m = strlen fuel src m >>= λ src_len. strlen fuel dst m >>= λ dst_len.
    let room = size - dst_len - 1 in
    let copy_cnt = if ltb src_len room then src_len else room in
    some (
      src_len + dst_len,
      if ltb 0 size && ltb dst_len size
          then update (copy_up copy_cnt (dst + dst_len) src m) (dst + dst_len + copy_cnt) 0
          else m,
    )

-- The first loop of `strtok_r`: the first character that is no delimiter, or NULL at the end.
pub skip_delimiters : ℕ → ℕ → ℕ → Bytes → Option (ℕ × Bool)
unfolding strchr
skip_delimiters zero s delimiters m = none
skip_delimiters (suc fuel) s delimiters m =
    let rest = skip_delimiters fuel (s + 1) delimiters m in
    strchr (suc fuel) delimiters (m s) m >>= λ r.
    if is_found r then (if m s == 0 then some (s, false) else rest) else some (s, true)

-- The second loop: the first delimiter or the end.
pub token_end : ℕ → ℕ → ℕ → Bytes → Option ℕ
unfolding strchr
token_end zero s delimiters m = none
token_end (suc fuel) s delimiters m =
    let rest = token_end fuel (s + 1) delimiters m in
    strchr (suc fuel) delimiters (m s) m >>= λ r. if is_found r then some s else rest

-- The token, the saved position, and the memory.
pub strtok_r : ℕ → Option ℕ → ℕ → ℕ → Bytes → Option (Option ℕ × ℕ × Bytes)
unfolding skip_delimiters token_end
strtok_r fuel s delimiters save_ptr m =
    let from : ℕ = elim s [ none ↦ save_ptr | some p ↦ p ] in
    skip_delimiters fuel from delimiters m >>= λ (token, more).
    if not more
    then some (none, token, m)
    else (token_end fuel token delimiters m >>= λ e.
        some (if not (m e == 0) then (some token, e + 1, update m e 0) else (some token, e, m)))
