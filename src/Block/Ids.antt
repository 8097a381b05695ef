-- ===== src/Block/Ids.antt =====
-- The block numbers, the enumeration of src/blocks.h. A cell of the map may hold any byte.
use thirty.Prelude.{ℕ}

abbrev pub air : ℕ
air = 0

abbrev pub stone : ℕ
stone = 1

abbrev pub grass : ℕ
grass = 2

abbrev pub dirt : ℕ
dirt = 3

abbrev pub cobblestone : ℕ
cobblestone = 4

abbrev pub wood_planks : ℕ
wood_planks = 5

abbrev pub sapling : ℕ
sapling = 6

abbrev pub bedrock : ℕ
bedrock = 7

abbrev pub water : ℕ
water = 8

abbrev pub water_still : ℕ
water_still = 9

abbrev pub lava : ℕ
lava = 10

abbrev pub lava_still : ℕ
lava_still = 11

abbrev pub sand : ℕ
sand = 12

abbrev pub gravel : ℕ
gravel = 13

abbrev pub gold_ore : ℕ
gold_ore = 14

abbrev pub iron_ore : ℕ
iron_ore = 15

abbrev pub coal_ore : ℕ
coal_ore = 16

abbrev pub wood : ℕ
wood = 17

abbrev pub leaves : ℕ
leaves = 18

abbrev pub sponge : ℕ
sponge = 19

abbrev pub glass : ℕ
glass = 20

abbrev pub red_wool : ℕ
red_wool = 21

abbrev pub orange_wool : ℕ
orange_wool = 22

abbrev pub yellow_wool : ℕ
yellow_wool = 23

abbrev pub lime_wool : ℕ
lime_wool = 24

abbrev pub green_wool : ℕ
green_wool = 25

abbrev pub aquagreen_wool : ℕ
aquagreen_wool = 26

abbrev pub cyan_wool : ℕ
cyan_wool = 27

abbrev pub blue_wool : ℕ
blue_wool = 28

abbrev pub purple_wool : ℕ
purple_wool = 29

abbrev pub indigo_wool : ℕ
indigo_wool = 30

abbrev pub violet_wool : ℕ
violet_wool = 31

abbrev pub magenta_wool : ℕ
magenta_wool = 32

abbrev pub pink_wool : ℕ
pink_wool = 33

abbrev pub black_wool : ℕ
black_wool = 34

abbrev pub grey_wool : ℕ
grey_wool = 35

abbrev pub white_wool : ℕ
white_wool = 36

abbrev pub dandelion : ℕ
dandelion = 37

abbrev pub rose : ℕ
rose = 38

abbrev pub brown_mushroom : ℕ
brown_mushroom = 39

abbrev pub red_mushroom : ℕ
red_mushroom = 40

abbrev pub gold_block : ℕ
gold_block = 41

abbrev pub iron_block : ℕ
iron_block = 42

abbrev pub double_slab : ℕ
double_slab = 43

abbrev pub slab : ℕ
slab = 44

abbrev pub bricks : ℕ
bricks = 45

abbrev pub tnt : ℕ
tnt = 46

abbrev pub bookshelf : ℕ
bookshelf = 47

abbrev pub mossy_cobblestoe : ℕ
mossy_cobblestoe = 48

abbrev pub obsidian : ℕ
obsidian = 49

abbrev pub cobblestone_slab : ℕ
cobblestone_slab = 50

abbrev pub rope : ℕ
rope = 51

abbrev pub sandstone : ℕ
sandstone = 52

abbrev pub snow : ℕ
snow = 53

abbrev pub fire : ℕ
fire = 54

abbrev pub light_pink_wool : ℕ
light_pink_wool = 55

abbrev pub forest_green_wool : ℕ
forest_green_wool = 56

abbrev pub brown_wool : ℕ
brown_wool = 57

abbrev pub deep_blue : ℕ
deep_blue = 58

abbrev pub turquoise : ℕ
turquoise = 59

abbrev pub ice : ℕ
ice = 60

abbrev pub ceramic_tile : ℕ
ceramic_tile = 61

abbrev pub magma : ℕ
magma = 62

abbrev pub pillar : ℕ
pillar = 63

abbrev pub crate : ℕ
crate = 64

abbrev pub stone_brick : ℕ
stone_brick = 65

abbrev pub num_blocks : ℕ
num_blocks = 66
