-- ===== src/Lists/Position.antt =====
-- pkg/memdb/list.go: `lPosList`.
use tinyredis.Prelude.{
  ℕ, zero, suc, ◌-◌, ◌%◌, Bool, false, not, Option, none, some, List, [], ◌∷◌, ◌++◌, reverse, Bytes,
  map, if◌then◌else◌, ◌==◌, ◌&&◌, ◌||◌, length, drop, text, eqb, is_some,
}
use tinyredis.Prelude.Int.{ℤ, pos, negsuc, pos_part, neg_part, ◌+ℤ◌, ltb_ℤ, eqb_ℤ}
use tinyredis.Decimal.{parse_int}
use tinyredis.Resp.{RedisData, error_data, int_data, null_bulk, array_data, elements}
use tinyredis.Keyspace.{Keyspace}
use tinyredis.Expiry.{Expiry}
use tinyredis.DoubleList.{DoubleList, position}
use tinyredis.Value.{Value, as_list}
use tinyredis.MemDb.{MemDb, named}
use tinyredis.Strings.{Outcome, error}
use tinyredis.Command.{keep, by_type, live_key}

-- The options, `none` for one that is not given.
pub record PosOptions : Type 0 where
  pub rank : Option ℤ
  pub count : Option ℕ
  pub maxlen : Option ℕ

pub data ParsedPos : Type 0 where
  pos_options : PosOptions → ParsedPos
  pos_refused : RedisData → ParsedPos

-- A number that is not negative.
unfoldable pub natural : Bytes → Option ℕ
natural word = elim (parse_int word) [
  | none ↦ none
  | some n ↦ if ltb_ℤ n (pos 0) then none else some (pos_part n)
]

-- The loop over `cmd[3:]`, whose words pair up.
unfoldable pub read_options : List Bytes → PosOptions → ParsedPos
unfolding natural named
read_options (word ∷ val ∷ rest) o =
    if named word "rank"
    then elim (parse_int val) [
      | none ↦ pos_refused (error "rank value should 1,2,3... or -1,-2,-3...")
      | some n ↦
          if eqb_ℤ n (pos 0)
          then pos_refused (error "rank value should 1,2,3... or -1,-2,-3...")
          else read_options rest (record o { rank = some n })
    ]
    else if named word "count"
    then elim (natural val) [
      | none ↦ pos_refused (error "count value is not an positive integer")
      | some n ↦ read_options rest (record o { count = some n })
    ]
    else if named word "maxlen"
    then elim (natural val) [
      | none ↦ pos_refused (error "maxlen value is not an positive integer")
      | some n ↦ read_options rest (record o { maxlen = some n })
    ]
    else pos_refused (error_data (text "unsupported option " ++ word))
read_options _ o = pos_options o

-- Where a walk stands: the nodes from `now` on, in its direction, with the place of `now`, the
-- matches that are left to skip, and the nodes that MAXLEN leaves.
pub record Walk : Type 0 where
  pub nodes : List Bytes
  pub place : ℤ
  pub skip : ℕ
  pub budget : ℕ

-- The loops of RANK; `step` is 1 or -1, and `limited` tells whether MAXLEN is given.
unfoldable pub rank_loop : Bytes → ℤ → Bool → List Bytes → ℤ → ℕ → ℕ → Walk
rank_loop elem step limited [] place skip budget = record {
  nodes = [];
  place = place;
  skip = skip;
  budget = budget;
}
rank_loop elem step limited (v ∷ rest) place skip budget =
    let place' = place +ℤ step in
    let skip' = if eqb v elem then skip - 1 else skip in
    let budget' = if limited then budget - 1 else budget in
    let further = rank_loop elem step limited rest place' skip' budget' in
    if limited && (budget' == 0) || (skip' == 0)
    then record { nodes = v ∷ rest; place = place'; skip = skip'; budget = budget' }
    else further

-- The loop without COUNT.
unfoldable pub first_loop : Bytes → Bool → List Bytes → ℤ → ℕ → RedisData
first_loop elem limited [] place budget = null_bulk
first_loop elem limited (v ∷ rest) place budget =
    let further = first_loop elem limited rest (place +ℤ pos 1) (budget - 1) in
    if eqb v elem then int_data place else if limited && (budget == 0) then null_bulk else further

-- The loops with COUNT.
unfoldable pub count_loop : Bytes → ℤ → Bool → List Bytes → ℤ → ℕ → ℕ → List ℤ
count_loop elem step limited nodes place zero budget = []
count_loop elem step limited [] place (suc count) budget = []
count_loop elem step limited (v ∷ rest) place (suc count) budget =
    let hit = count_loop elem step limited rest (place +ℤ step) count (budget - 1) in
    let miss = count_loop elem step limited rest (place +ℤ step) (suc count) (budget - 1) in
    let last = limited && (budget == 0) in
    if eqb v elem then place ∷ (if last then [] else hit) else if last then [] else miss

-- 0 stands for the length.
unfoldable pub or_length : DoubleList → Option ℕ → ℕ
or_length l none = 0
or_length l (some n) = if n == 0 then l.len else n

-- Where the search starts.
unfoldable pub start_walk : DoubleList → Bytes → PosOptions → Walk
unfolding rank_loop or_length
start_walk l elem o =
    let limited = is_some o.maxlen in
    let budget = or_length l o.maxlen in
    elim o.rank [
      | none ↦ record {
        nodes = l.vals;
        place = pos 0;
        skip = 0;
        budget = if limited then budget - 1 else budget;
      }
      | some n ↦
          if ltb_ℤ (pos 0) n
          then rank_loop elem (pos 1) limited l.vals (negsuc 0) (pos_part n) budget
          else rank_loop elem (negsuc 0) limited (reverse l.vals) (pos l.len) (neg_part n) budget
    ]

unfoldable pub position_array : List ℤ → RedisData
position_array [] = null_bulk
position_array (p ∷ ps) = array_data (elements (map int_data (p ∷ ps)))

-- The search from where it starts. Without COUNT it goes forwards whatever the rank.
unfoldable pub search_from : DoubleList → Bytes → PosOptions → Walk → RedisData
unfolding first_loop count_loop or_length position_array
search_from l elem o w =
    let limited = is_some o.maxlen in
    let backwards : Bool = elim o.rank [ none ↦ false | some n ↦ ltb_ℤ n (pos 0) ] in
    if is_some o.rank && not (w.skip == 0) || (length w.nodes == 0)
    then null_bulk
    else elim o.count [
      | none ↦
          first_loop elem limited (if backwards then drop (pos_part w.place) l.vals else w.nodes)
            w.place w.budget
      | some n ↦ position_array (
          count_loop elem (if backwards then negsuc 0 else pos 1) limited w.nodes w.place
            (or_length l (some n)) w.budget)
    ]

unfoldable pub lpos_value : Bytes → PosOptions → DoubleList → RedisData
unfolding start_walk search_from
lpos_value elem o l =
    if l.len == 0
    then null_bulk
    else if not (is_some o.rank || is_some o.count || is_some o.maxlen)
    then elim (position l elem) [ none ↦ null_bulk | some i ↦ int_data (pos i) ]
    else search_from l elem o (start_walk l elem o)

module _ (K : Keyspace Value) (E : Expiry) where
  unfoldable pub lpos_list : MemDb K E → ℤ → Bytes → List Bytes → Outcome K E
  unfolding read_options lpos_value by_type
  lpos_list m now name args =
      if not (named name "lpos") then (m, error "Server error") else elim args [
        | key ∷ elem ∷ rest ↦
            if length rest % 2 == 1
            then (m, error "wrong number of arguments for 'lpos' command")
            else elim (read_options rest (record { rank = none; count = none; maxlen = none })) [
              | pos_refused reply ↦ (m, reply)
              | pos_options o ↦
                  live_key K E m now key null_bulk
                    (λ v. by_type (keep, null_bulk) (λ l. (keep, lpos_value elem o l)) (as_list v))
            ]
        | _ ↦ (m, error "wrong number of arguments for 'lpos' command")
      ]
